-- ===== src/Payment/Listing.antt =====
-- What `List` and `ListByCustomerID` answer.
use kazakh_express.Base.{String, ◌==◌, ◌≡◌, ◌∙◌, sym, ap, subst, List, arith, select}
use mathlib.Core.List.{Perm}
use kazakh_express.Base.Sorting.{
  newest_first, IsNewestFirst, newest_first-IsNewestFirst, newest_first-Perm,
}
use kazakh_express.Effect.Cases.{guard_ok}
use kazakh_express.Effect.{ok, Env, World, ◌>>=◌}
use kazakh_express.Payment.Model.{Payment, ListFilter, Db}
use kazakh_express.Payment.Repository
use kazakh_express.Payment.Service.{list_by_customer_id}

list-rows :
    (env : Env) (filter : ListFilter) (w : World Db) (ps : List Payment)
    → (Repository.list env filter w).0 ≡ ok ps
    → newest_first (λ p. p.created_at) (Repository.matching filter w.db.payments) ≡ ps
unfolding Repository.list ◌>>=◌
list-rows env filter w ps h = ground arith

-- The payments that are listed for a customer are the stored payments of that customer, each once,
-- the newest first.
pub customer_list :
    (env : Env) (customer : String) (w : World Db) (ps : List Payment)
    → (list_by_customer_id env customer w).0 ≡ ok ps
    → IsNewestFirst (λ p. p.created_at) ps
      × Perm ps (select (λ p. p.customer_id == customer) w.db.payments)
unfolding list_by_customer_id
customer_list env customer w ps h =
    let (named, run) = guard_ok _ _ _ w h in
    let rows =
      list-rows env (record { customer_id = customer }) w ps (ap (λ x. x.0) (sym run) ∙ h) in
    let theirs = select (λ p. p.customer_id == customer) w.db.payments in
    let listed : newest_first (λ p. p.created_at) theirs ≡ ps = rw named at rows in
    subst (λ ps. IsNewestFirst (λ p. p.created_at) ps × Perm ps theirs) listed
      (
        newest_first-IsNewestFirst (λ p. p.created_at) theirs,
        newest_first-Perm (λ p. p.created_at) theirs,
      )
