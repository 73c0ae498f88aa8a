-- ===== src/Http/Relayed.antt =====
-- What the gateway makes of the answer of a service: it sees a result through two messages.
use kazakh_express.Base.{ℕ, eqb, ◌≡◌, refl, ap, List, [], ◌∷◌, map, if◌then◌else◌}
use kazakh_express.Effect.{Error, Result, ok, err, done, World, Action, pure, ◌>>=◌}
use kazakh_express.Http.{
  Body, one, many, null, Slice, nil, slice, elements, json_of, error_of, unavailable, error_text,
  text, wait, empty, Reply, respond, remote, bad_gateway,
}

module _ {A V : Type 0} (view : A → V) where
  abbrev pub RelaysBody : ℕ → Body A → Reply V → Type 0
  RelaysBody status (one a) g = g ≡ record { status = status; body = one (view a) }
  RelaysBody status (many l) g = g ≡ record { status = status; body = many (map view l) }
  RelaysBody status null g = g ≡ record { status = status; body = many [] }
  RelaysBody status (error_of e) g = g ≡ bad_gateway e
  RelaysBody status (unavailable e) g = g ≡ record { status = 502; body = unavailable e }
  RelaysBody status (error_text t) g =
      if eqb status 400 then g ≡ record { status = 400; body = error_text t } else g.status ≡ 502
  RelaysBody status (text t) g = g ≡ record { status = status; body = text t }
  RelaysBody status (wait n) g = g ≡ record { status = status; body = wait n }
  RelaysBody status empty g = g ≡ record { status = status; body = empty }

  -- An answer with a value or a list keeps its status, with the view of what it holds, and null
  -- becomes the empty list; an error of
  -- the service becomes 502, with its text where the service shows it; a body that is no JSON is
  -- 400 on both sides.
  abbrev pub IsRelayed : Reply A → Reply V → Type 0
  IsRelayed s g = RelaysBody s.status s.body g

map-map :
    {A P V : Type 0} (f : A → P) (g : P → V) (l : List A) → map g (map f l) ≡ map (λ a. g (f a)) l
map-map f g [] = refl
map-map f g (a ∷ l) = ap (λ t. g (f a) ∷ t) (map-map f g l)

module _ {D A P V : Type 0} (f : A → P) (g : P → V) (service_error : Error → Reply A)
    (errors : (e : Error) → IsRelayed (λ a. g (f a)) (service_error e) (bad_gateway e))
    (status : ℕ) where
  -- The answers of the two sides to one call that is delivered, with one value and with a list.
  abbrev pub RelaysOne : Action D A → World D → Type 0
  RelaysOne m w =
      let s = respond service_error status one m w in
      let c : Action D V = remote done (m >>= λ a. pure (f a)) >>= λ p. pure (g p) in
      let r = respond bad_gateway status one c w in IsRelayed (λ a. g (f a)) s.0 r.0 × (r.1 ≡ s.1)

  abbrev pub RelaysMany : Action D (List A) → World D → Type 0
  RelaysMany m w =
      let s = respond service_error status many m w in
      let c : Action D (List V) = remote done (m >>= λ l. pure (map f l)) >>= λ l. pure (map g l) in
      let r = respond bad_gateway status many c w in IsRelayed (λ a. g (f a)) s.0 r.0 × (r.1 ≡ s.1)

  -- The service writes a slice that may be nil.
  abbrev pub RelaysSlice : Action D (Slice A) → World D → Type 0
  RelaysSlice m w =
      let s = respond service_error status json_of m w in
      let c : Action D (List V) =
        remote done (m >>= λ l. pure (map f (elements l))) >>= λ l. pure (map g l) in
      let r = respond bad_gateway status many c w in IsRelayed (λ a. g (f a)) s.0 r.0 × (r.1 ≡ s.1)

  relay_answer : (a : Result A) (w w' : World D) → RelaysOne (λ _. (a, w')) w
  unfolding respond remote ◌>>=◌
  relay_answer (ok x) w w' = (refl, refl)
  relay_answer (err e) w w' = (errors e, refl)

  relay_answers : (a : Result (List A)) (w w' : World D) → RelaysMany (λ _. (a, w')) w
  unfolding respond remote ◌>>=◌
  relay_answers (ok l) w w' =
      (ap (λ x. record { status = status; body = many x }) (map-map f g l), refl)
  relay_answers (err e) w w' = (errors e, refl)

  pub relay_one : (m : Action D A) (w : World D) → RelaysOne m w
  unfolding respond remote ◌>>=◌
  relay_one m w = relay_answer (m w).0 w (m w).1

  pub relay_many : (m : Action D (List A)) (w : World D) → RelaysMany m w
  unfolding respond remote ◌>>=◌
  relay_many m w = relay_answers (m w).0 w (m w).1

  relay_elements : (a : Result (Slice A)) (w w' : World D) → RelaysSlice (λ _. (a, w')) w
  unfolding respond remote ◌>>=◌
  relay_elements (ok nil) w w' = (refl, refl)
  relay_elements (ok (slice l)) w w' =
      (ap (λ x. record { status = status; body = many x }) (map-map f g l), refl)
  relay_elements (err e) w w' = (errors e, refl)

  pub relay_slice : (m : Action D (Slice A)) (w : World D) → RelaysSlice m w
  unfolding respond remote ◌>>=◌
  relay_slice m w = relay_elements (m w).0 w (m w).1
