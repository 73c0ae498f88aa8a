-- ===== src/Payment/Machine/Edges.antt =====
-- The states of a payment: the transitions of payment-service/internal/payment/service.go, and what
-- they make of the stored rows.
use kazakh_express.Base.{
  String, ◌==◌, eq_iff, ◌≡◌, refl, sym, ◌⊎◌, inl, inr, Bool, true, false, List, some, arith,
  Bool-cases, some_inj, ◌∙◌, ap, subst,
}
use kazakh_express.Base.Table.{find, update_where, find-update_where, keys, keys-update_where}
use kazakh_express.Payment.Model.{Payment, Status, pending, succeeded, refunded, cancelled, Db}
use kazakh_express.Payment.Repository.{set_columns}

-- The transitions of the service: a payment may be confirmed while it is pending, refunded once it
-- has succeeded, and cancelled from any state but the two final ones.
abbrev pub edge : Status → Status → Bool
edge pending succeeded = true
edge succeeded refunded = true
edge refunded _ = false
edge cancelled _ = false
edge _ cancelled = true
edge _ _ = false

-- `q` is a later version of `p`: the same purchase, and its state is kept or went along an edge.
pub record Evolves (p q : Payment) : Type 0 where
  pub id : q.id ≡ p.id
  pub order_id : q.order_id ≡ p.order_id
  pub customer_id : q.customer_id ≡ p.customer_id
  pub amount_kzt : q.amount_kzt ≡ p.amount_kzt
  pub method : q.method ≡ p.method
  pub idempotency_key : q.idempotency_key ≡ p.idempotency_key
  pub created_at : q.created_at ≡ p.created_at
  pub status : (q.status ≡ p.status) ⊎ (edge p.status q.status ≡ true)

-- Every stored payment is stored afterwards, as a later version of itself.
abbrev pub Moves : List Payment → List Payment → Type 0
Moves ps qs =
    (id : String) (p : Payment)
    → find (λ r. r.id) id ps ≡ some p
    → (q : Payment) × (find (λ r. r.id) id qs ≡ some q) × Evolves p q

pub Evolves-refl : (p : Payment) → Evolves p p
Evolves-refl p = record {
  id = refl;
  order_id = refl;
  customer_id = refl;
  amount_kzt = refl;
  method = refl;
  idempotency_key = refl;
  created_at = refl;
  status = inl refl;
}

pub Moves-refl : (ps : List Payment) → Moves ps ps
Moves-refl ps id p h = (p, h, Evolves-refl p)

-- Writing a later version of the row that was read.
pub Moves-update :
    (ps : List Payment) (p q : Payment)
    → find (λ r. r.id) p.id ps ≡ some p
    → Evolves p (set_columns q p)
    → Moves ps (update_where (λ r. r.id) p.id (set_columns q) ps)
Moves-update ps p q stored later id r found = elim (Bool-cases (p.id == id)) [
  | inl same ↦ (
    set_columns q r,
    ground (arith, find-update_where (λ r. r.id) p.id id (set_columns q) ps (λ r. refl)),
    subst (λ x. Evolves x (set_columns q x))
        (some_inj (sym stored ∙ ap (λ k. find (λ s. s.id) k ps) ((eq_iff p.id id).0 same) ∙ found))
        later,
  )
  | inr other ↦ (
    r,
    ground (arith, find-update_where (λ r. r.id) p.id id (set_columns q) ps (λ r. refl)),
    Evolves-refl r,
  )
]

-- What a method that writes one row may do: the rows evolve, in their order and under their keys,
-- and nothing is charged.
pub record Rewrites (d d' : Db) : Type 0 where
  pub moves : Moves d.payments d'.payments
  pub ids : keys (λ r. r.id) d'.payments ≡ keys (λ r. r.id) d.payments
  pub idempotency_keys :
      keys (λ r. r.idempotency_key) d'.payments ≡ keys (λ r. r.idempotency_key) d.payments
  pub charged : d'.charged ≡ d.charged

pub Rewrites-same : (d d' : Db) → d'.payments ≡ d.payments → d'.charged ≡ d.charged → Rewrites d d'
Rewrites-same d d' rows charges = record {
  moves = rw rows (Moves-refl d.payments);
  ids = ap (keys (λ r. r.id)) rows;
  idempotency_keys = ap (keys (λ r. r.idempotency_key)) rows;
  charged = charges;
}

pub Rewrites-refl : (d : Db) → Rewrites d d
Rewrites-refl d = Rewrites-same d d refl refl

pub Rewrites-update :
    (d d' : Db) (p q : Payment)
    → find (λ r. r.id) p.id d.payments ≡ some p
    → Evolves p (set_columns q p)
    → d'.payments ≡ update_where (λ r. r.id) p.id (set_columns q) d.payments
    → d'.charged ≡ d.charged
    → Rewrites d d'
Rewrites-update d d' p q stored later wrote charges = record {
  moves = rw wrote (Moves-update d.payments p q stored later);
  ids =
      ap (keys (λ r. r.id)) wrote
      ∙ keys-update_where _ _ p.id (set_columns q) d.payments (λ r. refl);
  idempotency_keys =
      ap (keys (λ r. r.idempotency_key)) wrote
      ∙ keys-update_where _ _ p.id (set_columns q) d.payments (λ r. refl);
  charged = charges;
}
