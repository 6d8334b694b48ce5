-- ===== src/Operations/Invariant/Entry.antt =====
-- `Submit` and `Restore` keep the indexes coherent: their checks leave room for what they enter.
use ciwi.Base.{
  ℕ, String, Bool, true, false, not, ◌&&◌, ◌||◌, Option, none, some, ◌≡◌, refl, ap, sym, ◌∙◌, ◌==◌,
  arith, eq_iff, Bool-cases, inl, inr, if-cases,
}
use ciwi.Base.Dict.{Dict, lookup, value_or_empty}
use ciwi.Base.Result.{Result, ok, err}
use ciwi.Base.Text.{trim_space}
use ciwi.Operations.{
  Class, query, mutation, unclassified, is_terminal, is_query, is_mutation, Definition, Request,
  Operation, Journal, Coordinator,
}
use ciwi.Operations.Methods.{
  active_in, call_cancel, new_operation, requeued, register, accept, submit, restore, journaled,
  scope_checked, fingerprint_checked, fingerprinted, restore_scope_checked,
  restore_fingerprint_checked, restore_id_checked,
}
use ciwi.Operations.Invariant.{IsCoherent, active_in-found, entered-IsCoherent}

-- What a method leaves.
abbrev pub LeavesCoherent : {J : Type 0} {A : Type 0} → A × Coordinator J → Type 0
LeavesCoherent r = IsCoherent r.1

-- No active operation has the fingerprint, and no active mutation the scope, of `op`.
abbrev pub IsClear : Operation → Dict Operation → Type 0
IsClear op operations =
    (id : String) (other : Operation)
    → lookup id operations ≡ some other
    → is_terminal other.state ≡ false
    → ((op.fingerprint == other.fingerprint) ≡ false)
      × (is_mutation other.class ≡ true → (op.scope == other.scope) ≡ false)

-- What `active_in` does not find, no active operation has.
none_active :
    (index : Dict String) (key : String) (operations : Dict Operation) (id : String)
    (other : Operation)
    → active_in index key operations ≡ none
    → (id == "") ≡ false
    → lookup id operations ≡ some other
    → is_terminal other.state ≡ false
    → lookup key index ≡ some id
    → ⊥
none_active index key operations id other free named found active i =
    cc (free, active_in-found index key id operations other named i found active)

separate : (a b : String) → (a ≡ b → ⊥) → (a == b) ≡ false
separate a b h = elim (Bool-cases (a == b)) [
  | inl same ↦ absurd (h ((eq_iff a b).0 same))
  | inr apart ↦ apart
]

blank : (trim_space "" == "") ≡ true
unfolding trim_space
blank = refl

not_blank : (s : String) → (trim_space s == "") ≡ false → (s == "") ≡ false
not_blank s h = separate s "" (λ same. cc (h, blank, ap (λ x. trim_space x == "") same))

module _ {J : Type 0} (journal : Journal J) where
  journaled-IsCoherent :
      (op : Operation) (c : Coordinator J)
      → (op.id == "") ≡ false
      → IsClear op c.operations
      → IsCoherent c
      → (r : Result String (Unit {0}) × J) → LeavesCoherent (journaled journal op c r)
  unfolding journaled register
  journaled-IsCoherent op c named clear h (err text, j) = h
  journaled-IsCoherent op c named clear h (ok u, j) =
      entered-IsCoherent c.operations c.by_fingerprint c.by_scope op named clear h

  accept-IsCoherent :
      (op : Operation) (c : Coordinator J)
      → (op.id == "") ≡ false
      → IsClear op c.operations
      → IsCoherent c
      → LeavesCoherent (accept journal op c)
  unfolding accept register
  accept-IsCoherent op c named clear h =
      if-cases LeavesCoherent (is_mutation op.class) _ _
        (λ e. journaled-IsCoherent op c named clear h (journal.put op c.journal))
        (λ e. entered-IsCoherent c.operations c.by_fingerprint c.by_scope op named clear h)

  IsClear-checked :
      (op : Operation) (c : Coordinator J)
      → active_in c.by_fingerprint op.fingerprint c.operations ≡ none
      → ((other : Operation)
          → is_mutation other.class ≡ true
          → active_in c.by_scope op.scope c.operations ≡ some other
          → ⊥)
      → IsCoherent c
      → IsClear op c.operations
  IsClear-checked op c fresh alone h id other found active = (
    separate op.fingerprint other.fingerprint (λ same.
        none_active c.by_fingerprint op.fingerprint c.operations id other fresh
          ((h id other found active).0) found active
          (ap (λ k. lookup k c.by_fingerprint) same ∙ (h id other found active).1)),
    λ m. separate op.scope other.scope (λ same. alone other m (
        active_in-found c.by_scope op.scope id c.operations other ((h id other found active).0)
          (ap (λ k. lookup k c.by_scope) same ∙ (h id other found active).2 m) found active)),
  )

  query_no_mutation :
      (a b : Operation) → is_query a.class ≡ true → is_mutation b.class ≡ true → some a ≡ some b → ⊥
  query_no_mutation a b q m e = mixed b.class (ap (λ o. is_query_of o) (sym e) ∙ q) m
    where
      is_query_of : Option Operation → Bool
      is_query_of none = false
      is_query_of (some o) = is_query o.class

      mixed : (k : Class) → is_query k ≡ true → is_mutation k ≡ true → ⊥
      mixed query q m = cc m
      mixed mutation q m = cc q
      mixed unclassified q m = cc q

  scope_checked-IsCoherent :
      (op : Operation) (definition : Definition) (c : Coordinator J) (o : Option Operation)
      → active_in c.by_scope definition.scope c.operations ≡ o
      → op.scope ≡ definition.scope
      → (op.id == "") ≡ false
      → active_in c.by_fingerprint op.fingerprint c.operations ≡ none
      → IsCoherent c
      → LeavesCoherent (scope_checked journal op definition c o)
  unfolding scope_checked
  scope_checked-IsCoherent op definition c none free scoped named fresh h =
      accept-IsCoherent op c named
        (IsClear-checked op c fresh
          (λ other m e. cc (free, e, ap (λ k. active_in c.by_scope k c.operations) scoped)) h)
        h
  scope_checked-IsCoherent op definition c (some existing) found scoped named fresh h =
      if-cases LeavesCoherent (is_query definition.class && is_query existing.class) _ _
        (λ e.
          accept-IsCoherent op
            (record c {
              cancels = call_cancel (value_or_empty definition.scope c.by_scope) c.cancels;
            })
            named
            (IsClear-checked op c fresh
              (λ other m at.
                query_no_mutation existing other (ground (arith, e)) m
                  (sym found ∙ ap (λ k. active_in c.by_scope k c.operations) (sym scoped) ∙ at))
              h)
            h)
        (λ e. h)

  fingerprint_checked-IsCoherent :
      (op : Operation) (definition : Definition) (c : Coordinator J) (o : Option Operation)
      → active_in c.by_fingerprint op.fingerprint c.operations ≡ o
      → op.scope ≡ definition.scope
      → (op.id == "") ≡ false
      → IsCoherent c
      → LeavesCoherent (fingerprint_checked journal op definition c o)
  unfolding fingerprint_checked
  fingerprint_checked-IsCoherent op definition c (some existing) found scoped named h = h
  fingerprint_checked-IsCoherent op definition c none fresh scoped named h =
      scope_checked-IsCoherent op definition c (active_in c.by_scope definition.scope c.operations)
        refl scoped named fresh h

  fingerprinted-IsCoherent :
      (now : ℕ) (id key : String) (request : Request) (c : Coordinator J) (r : Result String String)
      → (request.definition.scope == "") ≡ false
      → (id == "") ≡ false
      → IsCoherent c
      → LeavesCoherent (fingerprinted journal now id key request c r)
  unfolding fingerprinted new_operation
  fingerprinted-IsCoherent now id key request c (err text) scoped named h = h
  fingerprinted-IsCoherent now id key request c (ok fingerprint) scoped named h =
      fingerprint_checked-IsCoherent (new_operation now id key fingerprint request)
        request.definition c (active_in c.by_fingerprint fingerprint c.operations) refl
        (rw scoped refl) named h

  -- A submission keeps the indexes coherent where its definition names a scope and the new id is not
  -- empty.
  pub submit-IsCoherent :
      (fingerprint : String → Dict String → Result String String) (now : ℕ) (id key : String)
      (request : Request) (c : Coordinator J)
      → (request.definition.scope == "") ≡ false
      → (id == "") ≡ false
      → IsCoherent c
      → IsCoherent (submit journal fingerprint now id key request c).1
  unfolding submit
  submit-IsCoherent fingerprint now id key request c scoped named h =
      if-cases LeavesCoherent (trim_space request.definition.command == "") _ _ (λ e. h)
        (λ e.
          if-cases LeavesCoherent
            (not (is_query request.definition.class) && not (is_mutation request.definition.class))
            _ _ (λ e. h)
            (λ e.
              fingerprinted-IsCoherent now id key request c
                (fingerprint request.definition.command request.arguments) scoped named h))

  restore_scope_checked-IsCoherent :
      (op : Operation) (c : Coordinator J) (o : Option Operation)
      → active_in c.by_scope op.scope c.operations ≡ o
      → (op.id == "") ≡ false
      → active_in c.by_fingerprint op.fingerprint c.operations ≡ none
      → IsCoherent c
      → LeavesCoherent (restore_scope_checked journal op c o)
  unfolding restore_scope_checked
  restore_scope_checked-IsCoherent op c (some existing) found named fresh h = h
  restore_scope_checked-IsCoherent op c none free named fresh h =
      accept-IsCoherent op c named (IsClear-checked op c fresh (λ other m e. cc (free, e)) h) h

  restore_fingerprint_checked-IsCoherent :
      (op : Operation) (c : Coordinator J) (o : Option Operation)
      → active_in c.by_fingerprint op.fingerprint c.operations ≡ o
      → (op.id == "") ≡ false
      → IsCoherent c
      → LeavesCoherent (restore_fingerprint_checked journal op c o)
  unfolding restore_fingerprint_checked
  restore_fingerprint_checked-IsCoherent op c (some existing) found named h = h
  restore_fingerprint_checked-IsCoherent op c none fresh named h =
      restore_scope_checked-IsCoherent op c (active_in c.by_scope op.scope c.operations) refl named
        fresh h

  restore_id_checked-IsCoherent :
      (op : Operation) (c : Coordinator J) (o : Option Operation)
      → (op.id == "") ≡ false
      → IsCoherent c
      → LeavesCoherent (restore_id_checked journal op c o)
  unfolding restore_id_checked
  restore_id_checked-IsCoherent op c (some existing) named h = h
  restore_id_checked-IsCoherent op c none named h =
      restore_fingerprint_checked-IsCoherent op c
        (active_in c.by_fingerprint op.fingerprint c.operations) refl named h

  -- A restored operation keeps the indexes coherent.
  pub restore-IsCoherent :
      (now : ℕ) (op : Operation) (c : Coordinator J)
      → IsCoherent c
      → IsCoherent (restore journal now op c).1
  unfolding restore requeued
  restore-IsCoherent now op c h =
      if-cases LeavesCoherent
        (not (is_mutation op.class)
          || trim_space op.id == ""
          || trim_space op.idempotency_key == "")
        _ _ (λ e. h)
        (λ e.
          if-cases LeavesCoherent (trim_space op.command == "" || trim_space op.fingerprint == "") _
            _ (λ f. h)
            (λ f.
              restore_id_checked-IsCoherent (requeued now op) c (lookup op.id c.operations)
                (not_blank op.id (ground (arith, e))) h))
