-- ===== src/User/Accounts/Rows.antt =====
-- The statements of user-service/internal/user/repository.go, on the rows of accounts and of refresh
-- tokens.
use kazakh_express.Base.{
  ℕ, String, eq_iff, ◌≡◌, refl, true, false, not, ◌&&◌, List, [], ◌∷◌, ◌++◌, arith, is_some,
}
use kazakh_express.Base.Table.{
  find, delete_where, update_where, keys, keys-append, keys-update_where, has, has-append,
  IsDistinct, IsDistinct-append, has-keys-none,
}
use kazakh_express.Effect.{Env}
use kazakh_express.Effect.Keeps.{
  Keeps, keeps_rules, Keeps-bind, Keeps-call, Respects-checked, Respects-writes,
}
use kazakh_express.User.Model.{User, Row, RefreshToken, Db}
use kazakh_express.User.Repository
use kazakh_express.User.Repository.{by_id, by_email}

abbrev ids : List Row → List String
ids = keys (λ r. r.user.id)

abbrev emails : List Row → List String
emails = keys (λ r. r.user.email)

-- The identifiers, the addresses and the hashes of refresh tokens are distinct, and every token belongs
-- to a row.
pub record AreConsistent (users : List Row) (tokens : List RefreshToken) : Type 0 where
  pub ids : IsDistinct (keys (λ r. r.user.id) users)
  pub emails : IsDistinct (keys (λ r. r.user.email) users)
  pub hashes : IsDistinct (keys (λ t. t.token_hash) tokens)
  pub owners :
      (k : String)
      → has k (keys (λ t. t.user_id) tokens) ≡ true
      → has k (keys (λ r. r.user.id) users) ≡ true

abbrev pub IsConsistent : Db → Type 0
IsConsistent d = AreConsistent d.users d.tokens

module _ {R : Type 0} (key col : R → String) where
  has-delete_where :
      (k j : String) (rs : List R)
      → has j (keys col rs) ≡ false
      → has j (keys col (delete_where key k rs)) ≡ false
  has-delete_where k j [] h = refl
  has-delete_where k j (r ∷ rs) h = ground (arith, has-delete_where k j rs)

  IsDistinct-delete_where :
      (k : String) (rs : List R)
      → IsDistinct (keys col rs)
      → IsDistinct (keys col (delete_where key k rs))
  IsDistinct-delete_where k [] h = tt
  IsDistinct-delete_where k (r ∷ rs) h =
      ground (arith, has-delete_where k (col r) rs, IsDistinct-delete_where k rs)

has-keys-some :
    {R : Type 0} (key : R → String) (k : String) (rs : List R)
    → is_some (find key k rs) ≡ true
    → has k (keys key rs) ≡ true
has-keys-some key k [] h = cc
has-keys-some key k (r ∷ rs) h = ground (arith, has-keys-some key k rs)

IsConsistent-create :
    (r : Row) (d : Db)
    → (not (is_some (by_id r.user.id d.users)) && not (is_some (by_email r.user.email d.users)))
      ≡ true
    → IsConsistent d
    → IsConsistent (record d { users = d.users ++ r ∷ [] })
IsConsistent-create r d good h = record {
  ids = rw keys-append (
      IsDistinct-append r.user.id (ids d.users)
        (has-keys-none (λ q. q.user.id) r.user.id d.users (ground arith)) h.ids);
  emails = rw keys-append (
      IsDistinct-append r.user.email (emails d.users)
        (has-keys-none (λ q. q.user.email) r.user.email d.users (ground arith)) h.emails);
  hashes = h.hashes;
  owners =
      λ k there. rw keys-append (ground (arith, has-append k r.user.id (ids d.users), h.owners k));
}

IsConsistent-update :
    (k : String) (f : Row → Row) (d : Db)
    → ((r : Row) → (f r).user.id ≡ r.user.id)
    → ((r : Row) → (f r).user.email ≡ r.user.email)
    → IsConsistent d
    → IsConsistent (record d { users = update_where (λ r. r.user.id) k f d.users })
IsConsistent-update k f d id email h = record {
  ids = rw (keys-update_where (λ r. r.user.id) (λ r. r.user.id) k f d.users id) h.ids;
  emails = rw (keys-update_where (λ r. r.user.id) (λ r. r.user.email) k f d.users email) h.emails;
  hashes = h.hashes;
  owners = λ j there.
      rw (keys-update_where (λ r. r.user.id) (λ r. r.user.id) k f d.users id) (h.owners j there);
}

IsConsistent-save :
    (t : RefreshToken) (d : Db)
    → (is_some (by_id t.user_id d.users)
        && not (is_some (find (λ q. q.token_hash) t.token_hash d.tokens)))
      ≡ true
    → IsConsistent d
    → IsConsistent (record d { tokens = d.tokens ++ t ∷ [] })
IsConsistent-save t d good h = record {
  ids = h.ids;
  emails = h.emails;
  hashes = rw keys-append (
      IsDistinct-append t.token_hash (keys (λ q. q.token_hash) d.tokens)
        (has-keys-none (λ q. q.token_hash) t.token_hash d.tokens (ground arith)) h.hashes);
  owners = λ k there. ground (
    arith,
    keys-append (λ q. q.user_id) d.tokens (t ∷ []),
    has-append k t.user_id (keys (λ q. q.user_id) d.tokens),
    h.owners k,
    eq_iff t.user_id k,
    has-keys-some (λ r. r.user.id) t.user_id d.users,
  );
}

IsConsistent-delete :
    (key : RefreshToken → String) (k : String) (d : Db)
    → IsConsistent d
    → IsConsistent (record d { tokens = delete_where key k d.tokens })
IsConsistent-delete key k d h = record {
  ids = h.ids;
  emails = h.emails;
  hashes = IsDistinct-delete_where key (λ t. t.token_hash) k d.tokens h.hashes;
  owners = λ j there.
      h.owners j (ground (arith, there, has-delete_where key (λ t. t.user_id) k j d.tokens));
}

module _ (env : Env) where
  pub create-Keeps : (u : User) → Keeps IsConsistent (Repository.create env u)
  unfolding Repository.create
  create-Keeps u = Keeps-bind _ _ (search keeps_rules) (λ t.
      Keeps-bind _ _ (search keeps_rules) (λ t'.
        Keeps-bind _ _
          (Keeps-call env _ _ (Respects-checked _ _ _ (λ d good h. IsConsistent-create _ d good h)))
          (λ x. search keeps_rules)))

  pub save-Keeps :
      (id hash : String) (t : ℕ) → Keeps IsConsistent (Repository.save_refresh_token env id hash t)
  unfolding Repository.save_refresh_token
  save-Keeps id hash t = Keeps-bind _ _ (search keeps_rules) (λ now.
      Keeps-call env _ _ (Respects-checked _ _ _ (λ d good h. IsConsistent-save _ d good h)))

  pub update-Keeps : (u : User) → Keeps IsConsistent (Repository.update env u)
  unfolding Repository.update
  update-Keeps u = Keeps-bind _ _ (search keeps_rules) (λ now.
      Keeps-bind _ _
        (Keeps-call env _ _
          (Respects-writes _ (λ d h. IsConsistent-update _ _ d (λ r. refl) (λ r. refl) h)))
        (λ x. search keeps_rules))

  pub save_reset-Keeps :
      (id hash : String) (t : ℕ)
      → Keeps IsConsistent (Repository.save_password_reset_token env id hash t)
  unfolding Repository.save_password_reset_token
  save_reset-Keeps id hash t =
      Keeps-call env _ _
        (record { of = λ now d h. IsConsistent-update id _ d (λ r. refl) (λ r. refl) h })

  pub update_password-Keeps :
      (id hash : String) → Keeps IsConsistent (Repository.update_password env id hash)
  unfolding Repository.update_password
  update_password-Keeps id hash =
      Keeps-call env _ _
        (record { of = λ now d h. IsConsistent-update id _ d (λ r. refl) (λ r. refl) h })

  pub clear_reset-Keeps :
      (id : String) → Keeps IsConsistent (Repository.clear_password_reset_token env id)
  unfolding Repository.clear_password_reset_token
  clear_reset-Keeps id =
      Keeps-call env _ _
        (record { of = λ now d h. IsConsistent-update id _ d (λ r. refl) (λ r. refl) h })

  pub delete-Keeps : (hash : String) → Keeps IsConsistent (Repository.delete_refresh_token env hash)
  unfolding Repository.delete_refresh_token
  delete-Keeps hash =
      Keeps-call env _ _
        (Respects-writes _ (λ d h. IsConsistent-delete (λ t. t.token_hash) hash d h))

  pub delete_all-Keeps :
      (id : String) → Keeps IsConsistent (Repository.delete_user_refresh_tokens env id)
  unfolding Repository.delete_user_refresh_tokens
  delete_all-Keeps id =
      Keeps-call env _ _ (Respects-writes _ (λ d h. IsConsistent-delete (λ t. t.user_id) id d h))
