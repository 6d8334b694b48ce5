-- ===== src/Operations/Invariant/Reach.antt =====
-- The coordinators that the program can reach, and what excludes what in them.
use ciwi.Base.{ℕ, String, true, false, some, [], ◌≡◌, ◌==◌}
use ciwi.Base.Dict.{Dict, lookup}
use ciwi.Base.Result.{Result}
use ciwi.Operations.{
  State, is_terminal, is_mutation, Request, Operation, Outcome, Journal, Coordinator,
}
use ciwi.Operations.Methods.{submit, restore, set_state, finish, forget, cancel_active, settle}
use ciwi.Operations.Invariant.{IsCoherent, IsCoherent-one_command, IsCoherent-one_mutation}
use ciwi.Operations.Invariant.Calls.{set_state-IsCoherent, finish-IsCoherent, forget-IsCoherent}
use ciwi.Operations.Invariant.Entry.{submit-IsCoherent, restore-IsCoherent}

module _ {J : Type 0} (journal : Journal J)
    (fingerprint : String → Dict String → Result String String) where
  -- Submissions name a scope, the uuid package gives no empty id, and an executor answers with a
  -- terminal state or leaves it to the error.
  pub data Reach : Coordinator J → Type 0 where
    start :
        (j : J)
        → Reach (record {
          operations = [];
          by_fingerprint = [];
          by_scope = [];
          cancels = [];
          journal = j;
        })
    submitted :
        {c : Coordinator J} (now : ℕ) (id key : String) (request : Request)
        → (request.definition.scope == "") ≡ false
        → (id == "") ≡ false
        → Reach c
        → Reach (submit journal fingerprint now id key request c).1
    restored :
        {c : Coordinator J} (now : ℕ) (op : Operation)
        → Reach c
        → Reach (restore journal now op c).1
    moved :
        {c : Coordinator J} (now : ℕ) (id : String) (state : State) (message : String)
        → Reach c
        → Reach (set_state journal now id state message c)
    finished :
        {c : Coordinator J} (now : ℕ) (id : String) (outcome : Outcome)
        → is_terminal (settle outcome).state ≡ true
        → Reach c
        → Reach (finish journal now id (settle outcome) c)
    forgotten : {c : Coordinator J} (id : String) → Reach c → Reach (forget journal id c).1
    cancelled_all : {c : Coordinator J} → Reach c → Reach (cancel_active journal c)

  cancel_active-IsCoherent :
      (c : Coordinator J) → IsCoherent c → IsCoherent (cancel_active journal c)
  unfolding cancel_active
  cancel_active-IsCoherent c h = h

  nothing : (id : String) (op : Operation) → lookup id [] ≡ some op → ⊥
  unfolding lookup
  nothing id op e = cc e

  Reach-IsCoherent : {c : Coordinator J} → Reach c → IsCoherent c
  Reach-IsCoherent (start j) = λ id op e a. absurd (nothing id op e)
  Reach-IsCoherent (submitted now id key request scoped named r) =
      submit-IsCoherent journal fingerprint now id key request _ scoped named (Reach-IsCoherent r)
  Reach-IsCoherent (restored now op r) = restore-IsCoherent journal now op _ (Reach-IsCoherent r)
  Reach-IsCoherent (moved now id state message r) =
      set_state-IsCoherent journal now id state message _ (Reach-IsCoherent r)
  Reach-IsCoherent (finished now id outcome t r) =
      finish-IsCoherent journal now id (settle outcome) _ t (Reach-IsCoherent r)
  Reach-IsCoherent (forgotten id r) = forget-IsCoherent journal id _ (Reach-IsCoherent r)
  Reach-IsCoherent (cancelled_all r) = cancel_active-IsCoherent _ (Reach-IsCoherent r)

  -- In every coordinator that is reached by submissions that name a scope, restored operations,
  -- moves of the state, terminal answers of the executor, Forget and CancelActive, two active
  -- operations are one if they have one fingerprint, or if both are mutations of one scope.
  pub Reach-exclusive :
      {c : Coordinator J}
      → Reach c
      → (i j : String) (a b : Operation) → lookup i c.operations ≡ some a
      → lookup j c.operations ≡ some b
      → is_terminal a.state ≡ false
      → is_terminal b.state ≡ false
      → (a.fingerprint ≡ b.fingerprint → i ≡ j)
        × (is_mutation a.class ≡ true → is_mutation b.class ≡ true → a.scope ≡ b.scope → i ≡ j)
  Reach-exclusive {c} r i j a b fa fb ta tb = (
    IsCoherent-one_command c (Reach-IsCoherent r) i j a b fa fb ta tb,
    IsCoherent-one_mutation c (Reach-IsCoherent r) i j a b fa fb ta tb,
  )
