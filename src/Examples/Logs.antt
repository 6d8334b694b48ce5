-- ===== src/Examples/Logs.antt =====
-- The log text "aé", three bytes, in chunks of two bytes.
use ciwi.Base.{ℕ, ◌≡◌, List, [], ◌∷◌, All}
use ciwi.Logtext.{split}
use ciwi.Logtext.Laws.{concat, IsChunk, bound_of, split-concat, split-IsChunk}

abbrev short_log : List ℕ
short_log = 0x61 ∷ 0xc3 ∷ 0xa9 ∷ []

split-concat_example : concat (split 2 short_log) ≡ short_log
split-concat_example = split-concat 2 short_log

split-IsChunk_example : All (IsChunk (bound_of 2)) (split 2 short_log)
split-IsChunk_example = split-IsChunk 2 short_log
