-- ===== src/Status/Laws.antt =====
-- How the classes of statuses relate.
use ciwi.Base.{String, true, false, ◌&&◌, ◌==◌, ◌≡◌, refl, ◌⊎◌, arith, eq_iff}
use ciwi.Base.Text.{trim_space, to_lower}
use ciwi.Status.{
  queued, leased, running, succeeded, failed, normalize_job_execution_status,
  is_active_job_execution_status, is_terminal_job_execution_status,
  is_valid_job_execution_update_status,
}

-- A status that an update may carry is one of three.
pub valid-cases :
    (s : String)
    → is_valid_job_execution_update_status s ≡ true
    → (normalize_job_execution_status s ≡ running)
      ⊎ (normalize_job_execution_status s ≡ succeeded)
      ⊎ (normalize_job_execution_status s ≡ failed)
unfolding is_valid_job_execution_update_status
valid-cases s h = ground (
  arith,
  eq_iff (normalize_job_execution_status s) running,
  eq_iff (normalize_job_execution_status s) succeeded,
  eq_iff (normalize_job_execution_status s) failed,
)

-- A text is not two different words.
pub one_word : (x a b : String) → (a == b) ≡ false → (x == a && x == b) ≡ false
one_word x a b h = ground (arith, eq_iff x a, eq_iff x b, eq_iff a b)

-- No status is both active and terminal, and every pending status is active.
pub active_not_terminal :
    (s : String)
    → is_active_job_execution_status s ≡ true
    → is_terminal_job_execution_status s ≡ false
unfolding is_active_job_execution_status is_terminal_job_execution_status
active_not_terminal s h =
    let n = normalize_job_execution_status s in
    ground (
      arith,
      one_word n queued succeeded refl,
      one_word n queued failed refl,
      one_word n leased succeeded refl,
      one_word n leased failed refl,
      one_word n running succeeded refl,
      one_word n running failed refl,
    )

-- The words are in their normal form, and which of them end a job.
pub normal_words :
    (normalize_job_execution_status queued ≡ queued)
    × (normalize_job_execution_status leased ≡ leased)
    × (normalize_job_execution_status running ≡ running)
    × (normalize_job_execution_status succeeded ≡ succeeded)
    × (normalize_job_execution_status failed ≡ failed)
unfolding normalize_job_execution_status trim_space to_lower
normal_words = (refl, refl, refl, refl, refl)

pub terminal_words :
    (is_terminal_job_execution_status running ≡ false)
    × (is_terminal_job_execution_status succeeded ≡ true)
    × (is_terminal_job_execution_status failed ≡ true)
unfolding is_terminal_job_execution_status normalize_job_execution_status trim_space to_lower
terminal_words = (refl, refl, refl)
