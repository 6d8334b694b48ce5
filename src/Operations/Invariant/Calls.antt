-- ===== src/Operations/Invariant/Calls.antt =====
-- Every method of the coordinator keeps the indexes coherent.
use ciwi.Base.{ℕ, String, true, some, ◌≡◌, refl, arith, Bool-cases, Option-cases, inl, inr}
use ciwi.Base.Dict.{lookup, delete, lookup-delete}
use ciwi.Operations.{State, is_terminal, Operation, Outcome, Journal, Coordinator}
use ciwi.Operations.Methods.{set_state, finish, forget}
use ciwi.Operations.Invariant.{IsCoherent, changed-IsCoherent, ended-IsCoherent}

module _ {J : Type 0} (journal : Journal J) where
  pub set_state-IsCoherent :
      (now : ℕ) (id : String) (state : State) (message : String) (c : Coordinator J)
      → IsCoherent c
      → IsCoherent (set_state journal now id state message c)
  unfolding set_state
  set_state-IsCoherent now id state message c h = elim (Option-cases (lookup id c.operations)) [
    | inl absent ↦ rw (absent, set_state) h
    | inr (op, found) ↦ elim (Bool-cases (is_terminal op.state)) [
      | inl over ↦ rw (found, over, set_state) h
      | inr active ↦
          rw (found, active, set_state)
            (changed-IsCoherent c.operations c.by_fingerprint c.by_scope id op _ found active refl
              refl refl h)
    ]
  ]

  -- The executor's answer ends the operation.
  pub finish-IsCoherent :
      (now : ℕ) (id : String) (outcome : Outcome) (c : Coordinator J)
      → is_terminal outcome.state ≡ true
      → IsCoherent c
      → IsCoherent (finish journal now id outcome c)
  unfolding finish
  finish-IsCoherent now id outcome c ended h = elim (Option-cases (lookup id c.operations)) [
    | inl absent ↦ rw (absent, finish) h
    | inr (op, found) ↦ elim (Bool-cases (is_terminal op.state)) [
      | inl over ↦ rw (found, over, finish) h
      | inr active ↦
          rw (found, active, finish)
            (ended-IsCoherent c.operations c.by_fingerprint c.by_scope id op _ found active ended h)
    ]
  ]

  pub forget-IsCoherent :
      (id : String) (c : Coordinator J) → IsCoherent c → IsCoherent (forget journal id c).1
  unfolding forget
  forget-IsCoherent id c h = elim (Option-cases (lookup id c.operations)) [
    | inl absent ↦ rw (absent, forget) h
    | inr (op, found) ↦ elim (Bool-cases (is_terminal op.state)) [
      | inr active ↦ rw (found, active, forget) h
      | inl over ↦ rw (found, over, forget) (λ j other e a. h j other (kept j other e) a)
    ]
  ]
    where
      kept :
          (j : String) (other : Operation)
          → lookup j (delete id c.operations) ≡ some other
          → lookup j c.operations ≡ some other
      kept j other e = ground (arith, lookup-delete id j c.operations)
