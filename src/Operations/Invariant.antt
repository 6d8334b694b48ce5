-- ===== src/Operations/Invariant.antt =====
-- The two indexes name every active operation, so that one command runs once at a time, and the
-- mutations of one scope exclude each other.
pub mod Calls
pub mod Entry
pub mod Reach
pub mod Submitting
use ciwi.Base.{
  ℕ, String, Bool, true, false, not, ◌&&◌, ◌||◌, Option, none, some, List, [], ◌∷◌, ◌≡◌, ◌≢◌, refl,
  ap, sym, ◌∙◌, subst, ◌==◌, if◌then◌else◌, eqb, arith, eq_iff, eq_refl, Bool-cases, Option-cases,
  inl, inr, if-cases, ◌⊎◌,
}
use ciwi.Base.Dict.{
  Dict, lookup, insert, delete, value_or_empty, value_or_empty-found, lookup-insert, lookup-delete,
}
use ciwi.Base.Result.{Result, ok, err}
use ciwi.Base.Text.{trim_space}
use ciwi.Operations.{
  Class, query, mutation, unclassified, State, is_terminal, is_query, is_mutation, Definition,
  Request, Operation, Outcome, Submission, accepted, OperationError, Journal, Coordinator,
}
use ciwi.Operations.Methods.{
  active_in, call_cancel, new_operation, requeued, register, accept, submit, restore, set_state,
  finish, forget, cancel_active, settle,
}

-- What is known of an active operation in the table.
abbrev pub IsIndexed : Dict String → Dict String → String → Operation → Type 0
IsIndexed by_fingerprint by_scope id op =
    ((id == "") ≡ false)
    × (lookup op.fingerprint by_fingerprint ≡ some id)
    × (is_mutation op.class ≡ true → lookup op.scope by_scope ≡ some id)

-- Every active operation is found in the indexes, under its own id.
abbrev pub IsCoherentMaps : Dict Operation → Dict String → Dict String → Type 0
IsCoherentMaps operations by_fingerprint by_scope =
    (id : String) (op : Operation)
    → lookup id operations ≡ some op
    → is_terminal op.state ≡ false
    → IsIndexed by_fingerprint by_scope id op

abbrev pub IsCoherent : {J : Type 0} → Coordinator J → Type 0
IsCoherent c = IsCoherentMaps c.operations c.by_fingerprint c.by_scope

-- No two active operations have one fingerprint.
pub IsCoherent-one_command :
    {J : Type 0} (c : Coordinator J)
    → IsCoherent c
    → (i j : String) (a b : Operation) → lookup i c.operations ≡ some a
    → lookup j c.operations ≡ some b
    → is_terminal a.state ≡ false
    → is_terminal b.state ≡ false
    → a.fingerprint ≡ b.fingerprint
    → i ≡ j
IsCoherent-one_command c h i j a b fa fb ta tb same = cc ((h i a fa ta).1, (h j b fb tb).1, same)

-- No two active mutations have one scope.
pub IsCoherent-one_mutation :
    {J : Type 0} (c : Coordinator J)
    → IsCoherent c
    → (i j : String) (a b : Operation) → lookup i c.operations ≡ some a
    → lookup j c.operations ≡ some b
    → is_terminal a.state ≡ false
    → is_terminal b.state ≡ false
    → is_mutation a.class ≡ true
    → is_mutation b.class ≡ true
    → a.scope ≡ b.scope
    → i ≡ j
IsCoherent-one_mutation c h i j a b fa fb ta tb ma mb same =
    cc ((h i a fa ta).2 ma, (h j b fb tb).2 mb, same)

-- An index entry of an active operation is found by `active_in`.
pub active_in-found :
    (index : Dict String) (key id : String) (operations : Dict Operation) (op : Operation)
    → (id == "") ≡ false
    → lookup key index ≡ some id
    → lookup id operations ≡ some op
    → is_terminal op.state ≡ false
    → active_in index key operations ≡ some op
unfolding active_in
active_in-found index key id operations op named i o t =
    rw (value_or_empty-found key index i, named, o, t) refl

-- The operation that is found after an entry was replaced.
pub found_after :
    (id j : String) (new other : Operation) (operations : Dict Operation)
    → lookup j (insert id new operations) ≡ some other
    → ((id ≡ j) × (new ≡ other)) ⊎ (((id == j) ≡ false) × (lookup j operations ≡ some other))
found_after id j new other operations h = elim (Bool-cases (id == j)) [
  | inl same ↦
      inl (
        (eq_iff id j).0 same,
        some_same (sym (lookup-insert id j new operations ∙ rw same refl) ∙ h),
      )
  | inr apart ↦ inr (apart, sym (lookup-insert id j new operations ∙ rw apart refl) ∙ h)
]
  where
    some_same : some new ≡ some other → new ≡ other
    some_same e = cc e

-- A change of an active operation that keeps its indexed fields.
pub changed-IsCoherent :
    (operations : Dict Operation) (by_fingerprint by_scope : Dict String) (id : String)
    (op new : Operation)
    → lookup id operations ≡ some op
    → is_terminal op.state ≡ false
    → new.fingerprint ≡ op.fingerprint
    → new.scope ≡ op.scope
    → new.class ≡ op.class
    → IsCoherentMaps operations by_fingerprint by_scope
    → IsCoherentMaps (insert id new operations) by_fingerprint by_scope
changed-IsCoherent operations by_fingerprint by_scope id op new at active f s k h j other found
      alive =
    elim (found_after id j new other operations found) [
      | inl (same, e) ↦ subst (IsIndexed by_fingerprint by_scope j) e (
          subst (λ i. IsIndexed by_fingerprint by_scope i new) same
            (
              (h id op at active).0,
              ap (λ x. lookup x by_fingerprint) f ∙ (h id op at active).1,
              λ m.
                  ap (λ x. lookup x by_scope) s
                  ∙ (h id op at active).2 (sym (ap is_mutation k) ∙ m),
            ))
      | inr (apart, before) ↦ h j other before alive
    ]

-- A change of an active operation that ends it, with its entries removed.
pub ended-IsCoherent :
    (operations : Dict Operation) (by_fingerprint by_scope : Dict String) (id : String)
    (op new : Operation)
    → lookup id operations ≡ some op
    → is_terminal op.state ≡ false
    → is_terminal new.state ≡ true
    → IsCoherentMaps operations by_fingerprint by_scope
    → IsCoherentMaps
        (insert id new operations)
        (delete op.fingerprint by_fingerprint)
        (if value_or_empty op.scope by_scope == id then delete op.scope by_scope else by_scope)
ended-IsCoherent operations by_fingerprint by_scope id op new at active over h j other found alive =
    elim (found_after id j new other operations found) [
      | inl (same, e) ↦ absurd (contrary (over, ap (λ o. is_terminal o.state) e, alive))
      | inr (apart, before) ↦ (
        (h j other before alive).0,
        fingerprint_kept apart (h id op at active) (h j other before alive),
        scope_kept apart (h j other before alive),
      )
    ]
  where
    contrary :
        (is_terminal new.state ≡ true)
          × (is_terminal new.state ≡ is_terminal other.state)
          × (is_terminal other.state ≡ false)
        → ⊥
    contrary (a, b, c) = cc (a, b, c)

    fingerprint_kept :
        (id == j) ≡ false
        → IsIndexed by_fingerprint by_scope id op
        → IsIndexed by_fingerprint by_scope j other
        → lookup other.fingerprint (delete op.fingerprint by_fingerprint) ≡ some j
    fingerprint_kept apart (nm, fp, sc) (nm', fp', sc') =
        lookup-delete op.fingerprint other.fingerprint by_fingerprint
        ∙ ground (arith, eq_iff op.fingerprint other.fingerprint, eq_iff id j)

    flipped : (id == j) ≡ false → (j == id) ≡ false
    flipped e = ground (arith, eq_iff id j, eq_iff j id)

    scope_kept :
        (id == j) ≡ false
        → IsIndexed by_fingerprint by_scope j other
        → is_mutation other.class ≡ true
        → lookup other.scope
            (if value_or_empty op.scope by_scope == id then delete op.scope by_scope else by_scope)
          ≡ some j
    scope_kept apart (nm', fp', sc') m = elim (Bool-cases (op.scope == other.scope)) [
      | inl same ↦
          rw
            (
              value_or_empty-found op.scope by_scope
                  (ap (λ k. lookup k by_scope) ((eq_iff op.scope other.scope).0 same) ∙ sc' m),
              flipped apart,
            )
            (sc' m)
      | inr differ ↦
          if-cases (λ m. lookup other.scope m ≡ some j) (value_or_empty op.scope by_scope == id) _ _
            (λ e. lookup-delete op.scope other.scope by_scope ∙ rw differ (sc' m)) (λ e. sc' m)
    ]

-- Entering an operation, where no active operation has its fingerprint, and no active mutation its
-- scope.
pub entered-IsCoherent :
    (operations : Dict Operation) (by_fingerprint by_scope : Dict String) (op : Operation)
    → (op.id == "") ≡ false
    → ((id : String) (other : Operation)
        → lookup id operations ≡ some other
        → is_terminal other.state ≡ false
        → ((op.fingerprint == other.fingerprint) ≡ false)
          × (is_mutation other.class ≡ true → (op.scope == other.scope) ≡ false))
    → IsCoherentMaps operations by_fingerprint by_scope
    → IsCoherentMaps
        (insert op.id op operations)
        (insert op.fingerprint op.id by_fingerprint)
        (insert op.scope op.id by_scope)
entered-IsCoherent operations by_fingerprint by_scope op named apart h id other found alive =
    elim (found_after op.id id op other operations found) [
      | inl (same, e) ↦
          subst
            (IsIndexed (insert op.fingerprint op.id by_fingerprint) (insert op.scope op.id by_scope)
              id)
            e
            (subst
              (λ i.
                IsIndexed (insert op.fingerprint op.id by_fingerprint)
                  (insert op.scope op.id by_scope) i op)
              same (named, own op.fingerprint by_fingerprint, λ m. own op.scope by_scope))
      | inr (differ, before) ↦ (
        (h id other before alive).0,
        lookup-insert op.fingerprint other.fingerprint op.id by_fingerprint
            ∙ rw ((apart id other before alive).0) ((h id other before alive).1),
        λ m.
            lookup-insert op.scope other.scope op.id by_scope
            ∙ rw ((apart id other before alive).1 m) ((h id other before alive).2 m),
      )
    ]
  where
    own : (k : String) (m : Dict String) → lookup k (insert k op.id m) ≡ some op.id
    own k m = lookup-insert k k op.id m ∙ rw (eq_refl k) refl
