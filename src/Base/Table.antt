-- ===== src/Base/Table.antt =====
-- SQL tables as lists of rows: the statements that the repositories send, as functions of the rows.
use Prim.Native.String.{String}
use text.Mathlib.Text.{◌==◌}
use text.Mathlib.TextEquality.{eq_iff}
use mathlib.Core.Path.{◌≡◌, refl}
use mathlib.Core.Bool.{Bool, true, false}
use mathlib.Core.Option.{Option, none, some}
use mathlib.Core.List.{List, [], ◌∷◌, ◌++◌}
use native.Mathlib.Omega.{arith}
use kazakh_express.Base.Tests.{if◌then◌else◌}

abbrev pub map_some {ℓ κ} : {A : Type ℓ} {B : Type κ} → (A → B) → Option A → Option B
map_some f none = none
map_some f (some a) = some (f a)

abbrev pub or_else {ℓ} : {A : Type ℓ} → Option A → Option A → Option A
or_else none b = b
or_else (some a) b = some a

module _ {ℓ} {R : Type ℓ} (key : R → String) where
  -- SELECT ... WHERE key = $1, for a key that is unique.
  abbrev pub find : String → List R → Option R
  find k [] = none
  find k (r ∷ rs) = if key r == k then some r else find k rs

  -- UPDATE ... SET ... WHERE key = $1.
  abbrev pub update_where : String → (R → R) → List R → List R
  update_where k f [] = []
  update_where k f (r ∷ rs) = (if key r == k then f r else r) ∷ update_where k f rs

  -- DELETE ... WHERE key = $1.
  abbrev pub delete_where : String → List R → List R
  delete_where k [] = []
  delete_where k (r ∷ rs) = if key r == k then delete_where k rs else r ∷ delete_where k rs

  -- A row that is found has the key that was asked for.
  pub key-find : (k : String) (rs : List R) {r : R} → find k rs ≡ some r → key r ≡ k
  key-find k [] h = cc
  key-find k (s ∷ rs) {r} h = ground (arith, eq_iff (key s) k, key-find k rs {r = r})

  pub find-append :
      (k : String) (rs ss : List R) → find k (rs ++ ss) ≡ or_else (find k rs) (find k ss)
  find-append k [] ss = refl
  find-append k (r ∷ rs) ss = ground (arith, find-append k rs ss)

  -- An update that keeps the key is seen at its key, and nowhere else.
  pub find-update_where :
      (k j : String) (f : R → R) (rs : List R)
      → ((r : R) → key (f r) ≡ key r)
      → find j (update_where k f rs) ≡ (if k == j then map_some f (find j rs) else find j rs)
  find-update_where k j f [] same = ground arith
  find-update_where k j f (r ∷ rs) same = ground (
    arith,
    same r,
    eq_iff (key r) k,
    eq_iff (key r) j,
    eq_iff k j,
    find-update_where k j f rs same,
  )

  pub find-delete_where :
      (k j : String) (rs : List R)
      → find j (delete_where k rs) ≡ (if k == j then none else find j rs)
  find-delete_where k j [] = ground arith
  find-delete_where k j (r ∷ rs) =
      ground (arith, eq_iff (key r) k, eq_iff (key r) j, eq_iff k j, find-delete_where k j rs)

  -- The keys of the rows, and how an update that keeps them leaves them.
  abbrev pub keys : List R → List String
  keys [] = []
  keys (r ∷ rs) = key r ∷ keys rs

  pub keys-append : (rs ss : List R) → keys (rs ++ ss) ≡ keys rs ++ keys ss
  keys-append [] ss = refl
  keys-append (r ∷ rs) ss = rw (keys-append rs ss)

module _ {ℓ} {R : Type ℓ} (key col : R → String) where
  pub keys-update_where :
      (k : String) (f : R → R) (rs : List R)
      → ((r : R) → col (f r) ≡ col r)
      → keys col (update_where key k f rs) ≡ keys col rs
  keys-update_where k f [] same = refl
  keys-update_where k f (r ∷ rs) same = ground (arith, same r, keys-update_where k f rs same)

-- Texts of which no two are equal.
abbrev pub has : String → List String → Bool
has k [] = false
has k (j ∷ js) = if j == k then true else has k js

abbrev pub IsDistinct : List String → Type 0
IsDistinct [] = Unit
IsDistinct (k ∷ ks) = (has k ks ≡ false) × IsDistinct ks

pub has-append :
    (k j : String) (ks : List String)
    → has k (ks ++ j ∷ []) ≡ (if has k ks then true else if j == k then true else false)
has-append k j [] = refl
has-append k j (i ∷ ks) = ground (arith, has-append k j ks)

pub IsDistinct-append :
    (k : String) (ks : List String) → has k ks ≡ false → IsDistinct ks → IsDistinct (ks ++ k ∷ [])
IsDistinct-append k [] h d = (refl, tt)
IsDistinct-append k (j ∷ ks) h d =
    ground (arith, eq_iff j k, eq_iff k j, has-append j k ks, IsDistinct-append k ks)

module _ {ℓ} {R : Type ℓ} (key : R → String) where
  pub has-keys-none :
      (k : String) (rs : List R) → find key k rs ≡ none → has k (keys key rs) ≡ false
  has-keys-none k [] h = refl
  has-keys-none k (r ∷ rs) h = ground (arith, has-keys-none k rs)

  -- A row that is found by one column is in the list of any other.
  pub has-keys_found :
      (col : R → String) (k : String) (rs : List R) {r : R}
      → find key k rs ≡ some r
      → has (col r) (keys col rs) ≡ true
  has-keys_found col k [] h = cc
  has-keys_found col k (s ∷ rs) {r} h =
      ground (arith, eq_iff (col s) (col r), has-keys_found col k rs {r = r})
