-- ===== src/Http/Paths.antt =====
-- Go's strings.TrimPrefix, strings.Trim and strings.Split on a path, by code points: each looks for
-- ASCII texts only, for which bytes and code points agree.
use Prim.Native.Char.{Char, code}
use Prim.Native.String.{[], ◌∷◌}
use text.Mathlib.TextLemmas.{nil-append, cons-append}
use text.Mathlib.TextEquality.{Char-path}
use kazakh_express.Base.{
  String, Bool, true, false, ◌&&◌, ◌||◌, is_some, Option, none, some, List, ◌≡◌, refl, ap, ◌∙◌, eqb,
  if◌then◌else◌, arith, All, ◌==◌, is_empty, Bool-cases, inl, inr, eq_iff, eq_refl, sym, some_inj,
  Option-cases,
}
use kazakh_express.Base.Decimal.{concat}

abbrev pub is_slash : Char → Bool
is_slash c = eqb (code c) b'/'

-- `s == ""`, by the form of the text.
abbrev pub is_blank : String → Bool
is_blank [] = true
is_blank (_ ∷ _) = false

unfoldable pub cut_prefix : String → String → Option String
cut_prefix [] s = some s
cut_prefix (_ ∷ _) [] = none
cut_prefix (c ∷ p) (d ∷ s) = if eqb (code c) (code d) then cut_prefix p s else none

abbrev pub or_text : String → Option String → String
or_text s none = s
or_text s (some t) = t

-- `strings.TrimPrefix(s, prefix)`
abbrev pub trim_prefix : String → String → String
trim_prefix prefix s = or_text s (cut_prefix prefix s)

-- `strings.Contains(s, word)`
unfoldable pub contains : String → String → Bool
contains word [] = is_blank word
contains word (c ∷ s) = let later = contains word s in is_some (cut_prefix word (c ∷ s)) || later

unfoldable pub trim_left : String → String
trim_left [] = ""
trim_left (c ∷ s) = if is_slash c then trim_left s else c ∷ s

unfoldable pub trim_right : String → String
trim_right [] = ""
trim_right (c ∷ s) = let rest = trim_right s in if is_slash c && is_blank rest then "" else c ∷ rest

-- `strings.Trim(s, "/")`
abbrev pub trim : String → String
trim s = trim_right (trim_left s)

abbrev pub put_first : Char → List String → List String
put_first c List.[] = List.◌∷◌ (c ∷ "") List.[]
put_first c (List.◌∷◌ p ps) = List.◌∷◌ (c ∷ p) ps

-- `strings.Split(s, "/")`
unfoldable pub split : String → List String
split [] = List.◌∷◌ "" List.[]
split (c ∷ s) = if is_slash c then List.◌∷◌ "" (split s) else put_first c (split s)

-- A part of a path that is not empty and holds no slash.
abbrev pub IsPlain : String → Type 0
IsPlain [] = Unit
IsPlain (c ∷ s) = (is_slash c ≡ false) × IsPlain s

abbrev pub IsPart : String → Type 0
IsPart p = (is_blank p ≡ false) × IsPlain p

abbrev pub join : String → List String → String
join p List.[] = p
join p (List.◌∷◌ q qs) = concat p (concat "/" (join q qs))

cut_prefix-concat : (p s : String) → cut_prefix p (concat p s) ≡ some s
unfolding cut_prefix
cut_prefix-concat [] s = rw nil-append refl
cut_prefix-concat (c ∷ p) s = rw cons-append (ground (arith, cut_prefix-concat p s))

code_eq : (c d : Char) → eqb (code c) (code d) ≡ true → c ≡ d
code_eq c d h = Char-path c d (ground (arith, h))

cut_prefix-some : (p s t : String) → cut_prefix p s ≡ some t → s ≡ concat p t
unfolding cut_prefix
cut_prefix-some [] s t h = rw nil-append (some_inj h)
cut_prefix-some (c ∷ p) [] t h = cc
cut_prefix-some (c ∷ p) (d ∷ s) t h = elim (Bool-cases (eqb (code c) (code d))) [
  | inl same ↦
      rw cons-append
        (rw (code_eq c d same) (ap (λ r. d ∷ r) (cut_prefix-some p s t (ground arith))))
  | inr other ↦ absurd (ground arith)
]

-- A text from which a prefix is trimmed begins with it.
pub trimmed-concat :
    (p s : String) → (trim_prefix p s == s) ≡ false → s ≡ concat p (trim_prefix p s)
trimmed-concat p s h = elim (Option-cases (cut_prefix p s)) [
  | inl e ↦ absurd (ground (arith, eq_refl s))
  | inr (t, e) ↦ cut_prefix-some p s t e ∙ ap (λ o. concat p (or_text s o)) (sym e)
]

concat_blank : (s t : String) → is_blank t ≡ false → is_blank (concat s t) ≡ false
concat_blank [] t h = rw nil-append h
concat_blank (c ∷ s) t h = rw cons-append refl

split-IsPlain : (p : String) → IsPlain p → split p ≡ List.◌∷◌ p List.[]
unfolding split
split-IsPlain [] h = refl
split-IsPlain (c ∷ p) (h, hs) = rw (h, split-IsPlain p hs) refl

slash_cons : (s : String) → concat "/" s ≡ "/" ∷ s
slash_cons s = rw (cons-append, nil-append) refl

split-concat : (p s : String) → IsPlain p → split (concat p (concat "/" s)) ≡ List.◌∷◌ p (split s)
unfolding split
split-concat [] s h = rw nil-append (ap split (slash_cons s))
split-concat (c ∷ p) s (h, hs) = rw cons-append (rw (h, split-concat p s hs) refl)

trim_right-IsPlain : (p : String) → IsPlain p → trim_right p ≡ p
unfolding trim_right
trim_right-IsPlain [] h = refl
trim_right-IsPlain (c ∷ p) (h, hs) = rw (h, trim_right-IsPlain p hs) refl

trim_right-concat :
    (s t : String) → is_blank t ≡ false → trim_right t ≡ t → trim_right (concat s t) ≡ concat s t
unfolding trim_right
trim_right-concat [] t h e = rw nil-append e
trim_right-concat (c ∷ s) t h e =
    rw cons-append (rw (trim_right-concat s t h e, concat_blank s t h) (ground arith))

part_concat : (p s : String) → is_blank p ≡ false → is_blank (concat p s) ≡ false
part_concat [] s h = cc
part_concat (c ∷ p) s h = rw cons-append refl

trim_left-concat : (p s : String) → IsPart p → trim_left (concat p s) ≡ concat p s
unfolding trim_left
trim_left-concat [] s h = absurd (cc h.0)
trim_left-concat (c ∷ p) s (b, (h, hs)) = rw cons-append (rw h refl)

trim_left-IsPart : (p : String) → IsPart p → trim_left p ≡ p
unfolding trim_left
trim_left-IsPart [] h = absurd (cc h.0)
trim_left-IsPart (c ∷ p) (b, (h, hs)) = rw h refl

trim_left-join : (p : String) (qs : List String) → IsPart p → trim_left (join p qs) ≡ join p qs
trim_left-join p List.[] h = trim_left-IsPart p h
trim_left-join p (List.◌∷◌ q qs) h = trim_left-concat p (concat "/" (join q qs)) h

join_blank : (p : String) (qs : List String) → IsPart p → is_blank (join p qs) ≡ false
join_blank p List.[] h = h.0
join_blank p (List.◌∷◌ q qs) h = part_concat p (concat "/" (join q qs)) h.0

trim_right-join :
    (p : String) (qs : List String) → IsPart p → All IsPart qs → trim_right (join p qs) ≡ join p qs
trim_right-join p List.[] h hs = trim_right-IsPlain p h.1
trim_right-join p (List.◌∷◌ q qs) h (k, ks) =
    let blank = join_blank q qs k in
    trim_right-concat p (concat "/" (join q qs)) (concat_blank "/" (join q qs) blank)
      (trim_right-concat "/" (join q qs) blank (trim_right-join q qs k ks))

split-join :
    (p : String) (qs : List String) → IsPart p → All IsPart qs → split (join p qs) ≡ List.◌∷◌ p qs
split-join p List.[] h hs = split-IsPlain p h.1
split-join p (List.◌∷◌ q qs) h (k, ks) =
    split-concat p (join q qs) h.1 ∙ ap (List.◌∷◌ p) (split-join q qs k ks)

-- The parts of a path that is a prefix and then parts: the parts come back.
pub split-trim-join :
    (prefix p : String) (qs : List String)
    → IsPart p
    → All IsPart qs
    → split (trim (trim_prefix prefix (concat prefix (join p qs)))) ≡ List.◌∷◌ p qs
split-trim-join prefix p qs h hs =
    rw (cut_prefix-concat prefix (join p qs), trim_left-join p qs h, trim_right-join p qs h hs)
      (split-join p qs h hs)

blank_empty : (s : String) → is_blank s ≡ false → (s == "") ≡ false
blank_empty s h = elim (Bool-cases (s == "")) [
  | inl e ↦ absurd (cc (sym h ∙ ap is_blank ((eq_iff s "").0 e)))
  | inr e ↦ e
]

pub concat-is_empty : (s t : String) → is_blank s ≡ false → is_empty (concat s t) ≡ false
concat-is_empty s t h = blank_empty (concat s t) (part_concat s t h)
