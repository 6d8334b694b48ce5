-- ===== src/Receipts/Laws.antt =====
-- What the statements make of a receipt.
use ciwi.Base.{
  String, Bool, true, false, Option, none, some, [], ◌∷◌, ◌≡◌, refl, ap, ◌==◌, map, find_where,
  delete_where, select, count_where, arith, eq_iff, eq_refl, inl, inr, Bool-cases, Option-cases,
  ◌∙◌,
}
use ciwi.Base.Result.{Result, ok}
use ciwi.Receipts.{
  CommandReceipt, Receipts, ReceiptError, pending, find_receipt, get_receipt, pending_receipt,
  insert_or_ignore, claimed, claim_receipt, is_pending, finish_row, finish_receipt, abandon_receipt,
  forget_row, mark_pending_unknown,
}

-- A claim inserts where the key is free, and otherwise reports the receipt that is there.
abbrev pub claim_outcome :
    String
    → String
    → String
    → Receipts
    → Option CommandReceipt
    → Result ReceiptError (CommandReceipt × Bool) × Receipts
claim_outcome key operation fingerprint receipts none =
    let receipt = pending_receipt key operation fingerprint in
    (ok (receipt, true), receipt ∷ receipts)
claim_outcome key operation fingerprint receipts (some receipt) = (ok (receipt, false), receipts)

get_receipt-own :
    (key operation fingerprint : String) (receipts : Receipts)
    → get_receipt key (pending_receipt key operation fingerprint ∷ receipts)
      ≡ ok (pending_receipt key operation fingerprint)
unfolding get_receipt find_receipt find_where
get_receipt-own key operation fingerprint receipts = rw (eq_refl key, get_receipt) refl

get_receipt-found :
    (key : String) (receipts : Receipts) {receipt : CommandReceipt}
    → find_receipt key receipts ≡ some receipt
    → get_receipt key receipts ≡ ok receipt
unfolding get_receipt
get_receipt-found key receipts e = rw (e, get_receipt) refl

insert_or_ignore-free :
    (receipt : CommandReceipt) (receipts : Receipts)
    → find_receipt receipt.key receipts ≡ none
    → insert_or_ignore receipt receipts ≡ (1, receipt ∷ receipts)
unfolding insert_or_ignore
insert_or_ignore-free receipt receipts e = rw (e, insert_or_ignore) refl

insert_or_ignore-taken :
    (receipt : CommandReceipt) (receipts : Receipts) {taken : CommandReceipt}
    → find_receipt receipt.key receipts ≡ some taken
    → insert_or_ignore receipt receipts ≡ (0, receipts)
unfolding insert_or_ignore
insert_or_ignore-taken receipt receipts e = rw (e, insert_or_ignore) refl

pub claim_receipt_lem :
    (key operation fingerprint : String) (receipts : Receipts)
    → claim_receipt key operation fingerprint receipts
      ≡ claim_outcome key operation fingerprint receipts (find_receipt key receipts)
unfolding claim_receipt claimed
claim_receipt_lem key operation fingerprint receipts =
    elim (Option-cases (find_receipt key receipts)) [
      | inl free ↦
          rw
            (
              free,
              insert_or_ignore-free (pending_receipt key operation fingerprint) receipts free,
              get_receipt-own key operation fingerprint receipts,
            )
            refl
      | inr (receipt, taken) ↦
          rw
            (
              insert_or_ignore-taken (pending_receipt key operation fingerprint) receipts taken,
              get_receipt-found key receipts taken,
              taken,
            )
            refl
    ]

-- Of a key without a receipt no row is pending.
pub count_where-free :
    (key : String) (receipts : Receipts)
    → find_receipt key receipts ≡ none
    → count_where (is_pending key) receipts ≡ 0
unfolding find_receipt find_where count_where
count_where-free key [] h = refl
count_where-free key (r ∷ rs) h = ground (arith, count_where-free key rs)

-- A statement that updates rows and keeps their keys acts on the receipt that a key finds.
pub find_receipt-map :
    (change : CommandReceipt → CommandReceipt)
    → ((r : CommandReceipt) → (change r).key ≡ r.key)
    → (key : String) (receipts : Receipts)
    → find_receipt key (map change receipts)
      ≡ elim (find_receipt key receipts) as (λ x. Option CommandReceipt) [
        | none ↦ none
        | some r ↦ some (change r)
      ]
unfolding find_receipt find_where
find_receipt-map change keeps key [] = refl
find_receipt-map change keeps key (r ∷ rs) =
    ground (arith, keeps r, find_receipt-map change keeps key rs)

pub finish_row-key :
    (key status result : String) (r : CommandReceipt) → (finish_row key status result r).key ≡ r.key
finish_row-key key status result r = ground arith

forget_row-key : (r : CommandReceipt) → (forget_row r).key ≡ r.key
forget_row-key r = ground arith

-- One statement on the table of receipts, by whichever request.
pub data Statement : Receipts → Receipts → Type 0 where
  claim :
      {receipts : Receipts} (key operation fingerprint : String)
      → Statement receipts (claim_receipt key operation fingerprint receipts).1
  finish :
      {receipts : Receipts} (key status result : String)
      → Statement receipts (finish_receipt key status result receipts).1
  abandon : {receipts : Receipts} (key : String) → Statement receipts (abandon_receipt key receipts)
  restart : {receipts : Receipts} → Statement receipts (mark_pending_unknown receipts)

pub data Statements : Receipts → Receipts → Type 0 where
  done : {receipts : Receipts} → Statements receipts receipts
  next : {a b c : Receipts} → Statements a b → Statement b c → Statements a c

claim_keeps :
    (key operation fingerprint k : String) (receipts : Receipts) (r : CommandReceipt)
    → find_receipt k receipts ≡ some r
    → (o : Option CommandReceipt) → find_receipt key receipts ≡ o
    → find_receipt k (claim_outcome key operation fingerprint receipts o).1 ≡ some r
unfolding find_receipt find_where
claim_keeps key operation fingerprint k receipts r h none free = elim (Bool-cases (key == k)) [
  | inl same ↦ absurd (cc (h, free, (eq_iff key k).0 same))
  | inr other ↦ rw other h
]
claim_keeps key operation fingerprint k receipts r h (some taken) e = h

finish_keeps :
    (key status result : String) (r : CommandReceipt)
    → (r.status == pending) ≡ false
    → finish_row key status result r ≡ r
finish_keeps key status result r h = ground (arith, h)

abandon_keeps :
    (key k : String) (receipts : Receipts) (r : CommandReceipt)
    → find_receipt k receipts ≡ some r
    → (r.status == pending) ≡ false
    → find_receipt k (abandon_receipt key receipts) ≡ some r
unfolding find_receipt find_where abandon_receipt delete_where select
abandon_keeps key k [] r h p = h
abandon_keeps key k (x ∷ xs) r h p =
    ground (arith, eq_iff x.key k, eq_iff x.key key, abandon_keeps key k xs r)

forget_keeps : (r : CommandReceipt) → (r.status == pending) ≡ false → forget_row r ≡ r
forget_keeps r h = rw h refl

Statement-keeps :
    {a b : Receipts}
    → Statement a b
    → (key : String) (r : CommandReceipt) → (r.status == pending) ≡ false
    → find_receipt key a ≡ some r
    → find_receipt key b ≡ some r
unfolding finish_receipt mark_pending_unknown
Statement-keeps (claim {receipts} key operation fingerprint) k r p h =
    ap (λ t. find_receipt k t.1) (claim_receipt_lem key operation fingerprint receipts)
    ∙ claim_keeps key operation fingerprint k receipts r h (find_receipt key receipts) refl
Statement-keeps (finish {receipts} key status result) k r p h =
    find_receipt-map (finish_row key status result) (finish_row-key key status result) k receipts
    ∙ rw h (ap some (finish_keeps key status result r p))
Statement-keeps (abandon {receipts} key) k r p h = abandon_keeps key k receipts r h p
Statement-keeps (restart {receipts}) k r p h =
    find_receipt-map forget_row forget_row-key k receipts ∙ rw h (ap some (forget_keeps r p))

-- A receipt that is not pending is final: no sequence of statements changes or removes it.
pub Statements-keeps :
    {a b : Receipts}
    → Statements a b
    → (key : String) (r : CommandReceipt) → (r.status == pending) ≡ false
    → find_receipt key a ≡ some r
    → find_receipt key b ≡ some r
Statements-keeps done key r p h = h
Statements-keeps (next before last) key r p h =
    Statement-keeps last key r p (Statements-keeps before key r p h)
