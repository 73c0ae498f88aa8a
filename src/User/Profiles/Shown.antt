-- ===== src/User/Profiles/Shown.antt =====
-- Profiles that a row has had: what is kept of the cache and of the tasks that write it.
use kazakh_express.Base.{
  ℕ, zero, suc, String, eq_iff, ◌≡◌, Option, none, some, List, [], ◌∷◌, ◌++◌, arith, All,
  Bool-cases, inl, inr, subst, ◌==◌,
}
use kazakh_express.Base.Table.{find, delete_where, find-delete_where, map_some}
use kazakh_express.User.Model.{
  User, Held, Task, send_welcome, publish, cache_profile, drop_profile, revoke, Db,
}
use kazakh_express.User.Repository.{by_id}
use kazakh_express.User.Service.{without_password}
use kazakh_express.User.Runs.{taken, keep_first}

-- The profile of a user that a state stores.
abbrev pub profile_of : String → Db → Option User
profile_of id d = map_some (λ r. without_password r.user) (by_id id d.users)

-- `u` is what one of these states stores for the identifier.
pub data Was (id : String) (u : User) : List Db → Type 0 where
  here : {d : Db} {past : List Db} → profile_of id d ≡ some u → Was id u (d ∷ past)
  later : {d : Db} {past : List Db} → Was id u past → Was id u (d ∷ past)

-- What a task writes to the cache was stored.
abbrev pub IsGood : List Db → Task → Type 0
IsGood past (cache_profile id u) = Was id (without_password u) past
IsGood past _ = Unit

-- So was all that the cache holds, and all that the started tasks write.
abbrev pub IsKept : List Db → Db → Type 0
IsKept past d =
    ((id : String) (h : Held User)
      → find (λ c. c.key) id d.cached ≡ some h
      → Was id (without_password h.value) past)
    × All (IsGood past) d.started

IsGood-later : (past : List Db) (d : Db) (t : Task) → IsGood past t → IsGood (d ∷ past) t
IsGood-later past d (cache_profile id u) h = later h
IsGood-later past d (send_welcome u) h = tt
IsGood-later past d (publish e u) h = tt
IsGood-later past d (drop_profile id) h = tt
IsGood-later past d (revoke token) h = tt

All-later :
    (past : List Db) (d : Db) (ts : List Task) → All (IsGood past) ts → All (IsGood (d ∷ past)) ts
All-later past d [] h = tt
All-later past d (t ∷ ts) h = (IsGood-later past d t h.0, All-later past d ts h.1)

pub Kept-later : (past : List Db) (d d' : Db) → IsKept past d' → IsKept (d ∷ past) d'
Kept-later past d d' h = (λ id e found. later (h.0 id e found), All-later past d d'.started h.1)

pub Kept-start :
    (past : List Db) (t : Task) (ts : List Task)
    → IsGood past t
    → All (IsGood past) ts
    → All (IsGood past) (ts ++ t ∷ [])
Kept-start past t [] good h = (good, tt)
Kept-start past t (s ∷ ts) good h = (h.0, Kept-start past t ts good h.1)

-- A task that is taken, and those that are left.
abbrev pub AreGood : List Db → Option (Task × List Task) → Type 0
AreGood past none = Unit
AreGood past (some (t, rest)) = IsGood past t × All (IsGood past) rest

AreGood-first :
    (past : List Db) (t : Task) (o : Option (Task × List Task))
    → IsGood past t
    → AreGood past o
    → AreGood past (map_some (keep_first t) o)
AreGood-first past t none good h = tt
AreGood-first past t (some (s, ts)) good h = (h.0, (good, h.1))

pub taken-AreGood :
    (past : List Db) (n : ℕ) (ts : List Task) → All (IsGood past) ts → AreGood past (taken n ts)
taken-AreGood past n [] h = tt
taken-AreGood past zero (t ∷ ts) h = h
taken-AreGood past (suc n) (t ∷ ts) h =
    AreGood-first past t (taken n ts) h.0 (taken-AreGood past n ts h.1)

-- An entry that is added, and entries that are deleted.
pub Kept-cache :
    (past : List Db) (id : String) (u : User) (t : ℕ) (d : Db)
    → Was id (without_password u) past
    → IsKept past d
    → IsKept past (record d {
      cached = record { key = id; value = without_password u; expires = t } ∷ d.cached;
    })
Kept-cache past id u t d good h = (
  λ j e found. elim (Bool-cases (id == j)) [
    | inl same ↦
        let value : without_password u ≡ e.value = ground arith in
        let key : id ≡ j = (eq_iff id j).0 same in
        subst (λ k. Was k (without_password e.value) past) key
          (subst (λ v. Was id (without_password v) past) value good)
    | inr other ↦ h.0 j e (ground arith)
  ],
  h.1,
)

pub Kept-drop :
    (past : List Db) (k : String) (d : Db)
    → IsKept past d
    → IsKept past (record d { cached = delete_where (λ c. c.key) k d.cached })
Kept-drop past k d h =
    (λ id e found. h.0 id e (ground (arith, find-delete_where (λ c. c.key) k id d.cached)), h.1)
