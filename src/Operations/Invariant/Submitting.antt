-- ===== src/Operations/Invariant/Submitting.antt =====
-- What `Submit` answers and leaves, on each of its branches.
use ciwi.Base.{
  ℕ, String, true, false, not, ◌&&◌, Option, none, some, ◌≡◌, refl, ◌∙◌, ◌==◌, if◌then◌else◌, ap,
  subst, Bool-cases, inl, inr, if-cases, Option-cases,
}
use ciwi.Base.Dict.{Dict, lookup, lookup-insert, value_or_empty}
use ciwi.Base.Result.{Result, ok, err}
use ciwi.Base.Text.{trim_space}
use ciwi.Operations.{
  queued, is_terminal, is_query, is_mutation, Definition, Request, Operation, Submission, accepted,
  duplicate, conflict, OperationError, Journal, Coordinator,
}
use ciwi.Operations.Methods.{
  active_in, call_cancel, new_operation, register, accept, submit, journaled, scope_checked,
  fingerprint_checked, fingerprinted,
}

-- The coordinator has the operation, and it is active.
abbrev pub IsActiveIn : Dict Operation → Operation → Type 0
IsActiveIn operations op =
    (i : String) × (lookup i operations ≡ some op) × (is_terminal op.state ≡ false)

active_in-IsActiveIn :
    (index : Dict String) (key : String) (operations : Dict Operation) (op : Operation)
    → active_in index key operations ≡ some op
    → IsActiveIn operations op
unfolding active_in
active_in-IsActiveIn index key operations op h =
    let id = value_or_empty key index in
    elim (Bool-cases (id == "")) [
      | inl unnamed ↦ absurd (cc (rw (unnamed, active_in) at h))
      | inr named ↦ elim (Option-cases (lookup id operations)) [
        | inl missing ↦ absurd (cc (rw (named, missing, active_in) at h))
        | inr (found, read) ↦ elim (Bool-cases (is_terminal found.state)) [
          | inl ended ↦ absurd (cc (rw (named, read, ended, active_in) at h))
          | inr going ↦
              let same : found ≡ op = cc (rw (named, read, going, active_in) at h) in
              (id, read ∙ ap some same, subst (λ o. is_terminal o.state ≡ false) same going)
        ]
      ]
    ]

module _ {J : Type 0} (journal : Journal J) where
  -- An error leaves the operations and their indexes. A duplicate and a conflict are an active
  -- operation, and leave everything. An accepted operation is new, queued and entered beside the
  -- others; if it is a mutation, the journal took it.
  abbrev pub Submitted :
      Coordinator J → String → Result OperationError Submission × Coordinator J → Type 0
  Submitted c id (err e, c') =
      (c'.operations ≡ c.operations)
      × (c'.by_fingerprint ≡ c.by_fingerprint)
      × (c'.by_scope ≡ c.by_scope)
  Submitted c id (ok (duplicate op), c') = (c' ≡ c) × IsActiveIn c.operations op
  Submitted c id (ok (conflict op), c') = (c' ≡ c) × IsActiveIn c.operations op
  Submitted c id (ok (accepted op), c') =
      (op.id ≡ id)
      × (op.state ≡ queued)
      × ((j : String)
          → lookup j c'.operations ≡ (if id == j then some op else lookup j c.operations))
      × (is_mutation op.class ≡ true → journal.put op c.journal ≡ (ok tt, c'.journal))

  journaled-Submitted :
      (op : Operation) (c d : Coordinator J)
      → op.state ≡ queued
      → d.operations ≡ c.operations
      → d.by_fingerprint ≡ c.by_fingerprint
      → d.by_scope ≡ c.by_scope
      → (r : Result String (Unit {0}) × J) → journal.put op c.journal ≡ r
      → Submitted c op.id (journaled journal op d r)
  unfolding journaled register
  journaled-Submitted op c d fresh ops prints scopes (err text, j) put = (ops, prints, scopes)
  journaled-Submitted op c d fresh ops prints scopes (ok tt, j) put =
      (refl, fresh, λ i. lookup-insert op.id i op d.operations ∙ rw ops refl, λ m. put)

  accept-Submitted :
      (op : Operation) (c d : Coordinator J)
      → op.state ≡ queued
      → d.operations ≡ c.operations
      → d.by_fingerprint ≡ c.by_fingerprint
      → d.by_scope ≡ c.by_scope
      → d.journal ≡ c.journal
      → Submitted c op.id (accept journal op d)
  unfolding accept register
  accept-Submitted op c d fresh ops prints scopes kept =
      if-cases (Submitted c op.id) (is_mutation op.class) _ _
        (λ m.
          journaled-Submitted op c d fresh ops prints scopes (journal.put op d.journal)
            (rw kept refl))
        (λ q. (
          refl,
          fresh,
          λ i. lookup-insert op.id i op d.operations ∙ rw ops refl,
          λ m. absurd (cc (q, m)),
        ))

  scope_checked-Submitted :
      (op : Operation) (definition : Definition) (c : Coordinator J)
      → op.state ≡ queued
      → (o : Option Operation) → active_in c.by_scope definition.scope c.operations ≡ o
      → Submitted c op.id (scope_checked journal op definition c o)
  unfolding scope_checked
  scope_checked-Submitted op definition c fresh none free =
      accept-Submitted op c c fresh refl refl refl refl
  scope_checked-Submitted op definition c fresh (some existing) found =
      if-cases (Submitted c op.id) (is_query definition.class && is_query existing.class) _ _
        (λ replaced.
          accept-Submitted op c
            (record c {
              cancels = call_cancel (value_or_empty definition.scope c.by_scope) c.cancels;
            })
            fresh refl refl refl refl)
        (λ in_the_way.
          (refl, active_in-IsActiveIn c.by_scope definition.scope c.operations existing found))

  fingerprint_checked-Submitted :
      (op : Operation) (definition : Definition) (c : Coordinator J)
      → op.state ≡ queued
      → (o : Option Operation) → active_in c.by_fingerprint op.fingerprint c.operations ≡ o
      → Submitted c op.id (fingerprint_checked journal op definition c o)
  unfolding fingerprint_checked
  fingerprint_checked-Submitted op definition c fresh none unseen =
      scope_checked-Submitted op definition c fresh _ refl
  fingerprint_checked-Submitted op definition c fresh (some existing) found =
      (refl, active_in-IsActiveIn c.by_fingerprint op.fingerprint c.operations existing found)

  fingerprinted-Submitted :
      (now : ℕ) (id key : String) (request : Request) (c : Coordinator J) (r : Result String String)
      → Submitted c id (fingerprinted journal now id key request c r)
  unfolding fingerprinted new_operation
  fingerprinted-Submitted now id key request c (err text) = (refl, refl, refl)
  fingerprinted-Submitted now id key request c (ok print) =
      fingerprint_checked-Submitted (new_operation now id key print request) request.definition c
        refl _ refl

  -- A submission that ends with an error leaves the operations and their indexes as they were. One
  -- that is a duplicate or in conflict names an operation that is active, and changes nothing. One
  -- that is accepted has the new id, is queued, and is the only change to the operations; a
  -- mutation is accepted only if the journal took it, and the journal is then left as it was
  -- written.
  pub submit-Submitted :
      (fingerprint : String → Dict String → Result String String) (now : ℕ) (id key : String)
      (request : Request) (c : Coordinator J)
      → Submitted c id (submit journal fingerprint now id key request c)
  unfolding submit
  submit-Submitted fingerprint now id key request c =
      if-cases (Submitted c id) (trim_space request.definition.command == "") _ _
        (λ blank. (refl, refl, refl))
        (λ named.
          if-cases (Submitted c id)
            (not (is_query request.definition.class) && not (is_mutation request.definition.class))
            _ _ (λ neither. (refl, refl, refl))
            (λ known.
              fingerprinted-Submitted now id key request c
                (fingerprint request.definition.command request.arguments)))
