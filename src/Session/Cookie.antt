-- ===== src/Session/Cookie.antt =====
-- internal/admin/session.go: which cookies verifyCookie takes.
use Prim.Native.Char.{Char, char, code}
use Prim.Native.String.{◌++◌ as append, count}
use mathlib.Core.Option.{some-injective}
use text.Mathlib.TextEquality.{Char-path}
use text.Mathlib.TextLemmas.{nil-append, cons-append, length-nil, length-cons}
use llms_proxy.Base.{
  ◌≡◌, refl, sym, ap, subst, ◌∙◌, ◌↔◌, ◌⊎◌, inl, inr, Bool, true, false, not, ◌&&◌, ◌||◌, String,
  none, some, List, [], ◌∷◌, ◌==◌, arith, Bool-cases, if◌then◌else◌,
}
use llms_proxy.Base.Strings.{is_blank}
use llms_proxy.Session.{
  SessionManager, cons_first, split_dots, differs, constant_time_compare, sign, verify_parts,
  verify_cookie,
}

unfoldable pub no_dot : String → Bool
no_dot String.[] = true
no_dot (String.◌∷◌ c s) = not (code c == b'.') && no_dot s

differs-true : (a b : String) → differs true a b ≡ true
unfolding differs
differs-true String.[] b = refl
differs-true (String.◌∷◌ c s) String.[] = refl
differs-true (String.◌∷◌ c s) (String.◌∷◌ d t) = differs-true s t

differs_self : (a : String) → differs false a a ≡ false
unfolding differs
differs_self String.[] = refl
differs_self (String.◌∷◌ c s) = ground (arith, differs_self s)

differs-eq : (a b : String) → count a ≡ count b → differs false a b ≡ false → a ≡ b
unfolding differs
differs-eq String.[] String.[] n h = refl
differs-eq String.[] (String.◌∷◌ d t) n h = absurd (omega (arith, length-nil, length-cons d t, n))
differs-eq (String.◌∷◌ c s) String.[] n h = absurd (omega (arith, length-nil, length-cons c s, n))
differs-eq (String.◌∷◌ c s) (String.◌∷◌ d t) n h = step (code c == code d) refl (differs-eq s t) h
  where
    size : count s ≡ count t
    size = omega (arith, length-cons c s, length-cons d t, n)

    same_code : (code c == code d) ≡ true → code c ≡ code d
    same_code e = ground arith

    step :
        (b : Bool)
        → (code c == code d) ≡ b
        → (count s ≡ count t → differs false s t ≡ false → s ≡ t)
        → differs (not b) s t ≡ false
        → String.◌∷◌ c s ≡ String.◌∷◌ d t
    step true e ih k = cc (Char-path c d (same_code e), ih size k)
    step false e ih k = absurd (clash (differs-true s t) k)
      where
        clash : {x : Bool} → x ≡ true → x ≡ false → ⊥
        clash f g = cc

constant_time_compare_iff : (a b : String) → (constant_time_compare a b ≡ true) ↔ (a ≡ b)
unfolding constant_time_compare
constant_time_compare_iff a b = (forth (Bool-cases (count a == count b)), back)
  where
    forth :
        ((count a == count b) ≡ true) ⊎ ((count a == count b) ≡ false)
        → constant_time_compare a b ≡ true
        → a ≡ b
    forth (inl e) h = differs-eq a b (ground arith) (ground arith)
    forth (inr e) h = ground arith

    back : a ≡ b → constant_time_compare a b ≡ true
    back p = subst (λ c. constant_time_compare a c ≡ true) p (ground (arith, differs_self a))

cons_first-split :
    (c : Char) (s : String) (ps : List String) → cons_first c (s ∷ ps) ≡ String.◌∷◌ c s ∷ ps
cons_first-split c s ps = refl

split_dots-no_dot : (s : String) → no_dot s ≡ true → split_dots s ≡ s ∷ []
unfolding split_dots no_dot
split_dots-no_dot String.[] h = refl
split_dots-no_dot (String.◌∷◌ c s) h = simp (not_dot, split_dots-no_dot s rest)
  where
    not_dot : (code c == b'.') ≡ false
    not_dot = ground arith

    rest : no_dot s ≡ true
    rest = ground arith

dot-append : (t : String) → append "." t ≡ String.◌∷◌ (char 46 tt) t
dot-append t = cons-append (char 46 tt) "" t ∙ ap (String.◌∷◌ (char 46 tt)) (nil-append t)

split_dots-append :
    (s t : String) → no_dot s ≡ true → split_dots (append s (append "." t)) ≡ s ∷ split_dots t
unfolding split_dots no_dot
split_dots-append String.[] t h = ap split_dots (nil-append (append "." t) ∙ dot-append t)
split_dots-append (String.◌∷◌ c s) t h =
    ap split_dots (cons-append c s (append "." t)) ∙ simp (not_dot, split_dots-append s t rest)
  where
    not_dot : (code c == b'.') ≡ false
    not_dot = ground arith

    rest : no_dot s ≡ true
    rest = ground arith

-- The first part has no dot.
first_no_dot : List String → Bool
first_no_dot [] = true
first_no_dot (p ∷ ps) = no_dot p

first_no_dot-cons_first :
    (c : Char) (ps : List String)
    → (code c == b'.') ≡ false
    → first_no_dot ps ≡ true
    → first_no_dot (cons_first c ps) ≡ true
unfolding first_no_dot no_dot
first_no_dot-cons_first c [] e h = rw e refl
first_no_dot-cons_first c (p ∷ ps) e h = ground arith

first_no_dot-split_dots : (s : String) → first_no_dot (split_dots s) ≡ true
unfolding first_no_dot split_dots no_dot
first_no_dot-split_dots String.[] = refl
first_no_dot-split_dots (String.◌∷◌ c s) = step (code c == b'.') refl (first_no_dot-split_dots s)
  where
    step :
        (b : Bool)
        → (code c == b'.') ≡ b
        → first_no_dot (split_dots s) ≡ true
        → first_no_dot (if b then "" ∷ split_dots s else cons_first c (split_dots s)) ≡ true
    step true e h = refl
    step false e h = first_no_dot-cons_first c (split_dots s) e h

module _ (mac : String → String → String)
    (hex : (secret id : String)
      → (no_dot (mac secret id) ≡ true) × (is_blank (mac secret id) ≡ false)) where
  verify_parts-signed :
      (m : SessionManager) (value id : String) (parts : List String)
      → first_no_dot parts ≡ true
      → verify_parts mac m value parts ≡ some id
      → (value ≡ sign mac m id) × (is_blank id ≡ false) × (no_dot id ≡ true)
  unfolding first_no_dot
  verify_parts-signed m value id [] n h = cc
  verify_parts-signed m value id (a ∷ []) n h = cc
  verify_parts-signed m value id (a ∷ b ∷ []) n h =
      step (is_blank a || is_blank b) (constant_time_compare (sign mac m a) value) refl refl h
    where
      step :
          (x y : Bool)
          → (is_blank a || is_blank b) ≡ x
          → constant_time_compare (sign mac m a) value ≡ y
          → (if x then none else if y then some a else none) ≡ some id
          → (value ≡ sign mac m id) × (is_blank id ≡ false) × (no_dot id ≡ true)
      step true y e f h = cc
      step false false e f h = cc
      step false true e f h =
          subst (λ i. (value ≡ sign mac m i) × (is_blank i ≡ false) × (no_dot i ≡ true))
            (some-injective _ _ h)
            (sym ((constant_time_compare_iff (sign mac m a) value).0 f), ground (arith, e), n)
  verify_parts-signed m value id (a ∷ b ∷ c ∷ d) n h = cc

  -- verifyCookie takes exactly the cookies that sign made, of an id that is not empty and has no dot,
  -- and gives that id.
  pub verify_cookie-sign :
      (m : SessionManager) (value id : String)
      → (verify_cookie mac m value ≡ some id)
        ↔ (value ≡ sign mac m id) × (is_blank id ≡ false) × (no_dot id ≡ true)
  unfolding verify_cookie sign
  verify_cookie-sign m value id = (forth, back)
    where
      forth :
          verify_parts mac m value (split_dots value) ≡ some id
          → (value ≡ sign mac m id) × (is_blank id ≡ false) × (no_dot id ≡ true)
      forth h = verify_parts-signed m value id (split_dots value) (first_no_dot-split_dots value) h

      back :
          (value ≡ sign mac m id) × (is_blank id ≡ false) × (no_dot id ≡ true)
          → verify_parts mac m value (split_dots value) ≡ some id
      back (e, b, n) =
          ap (verify_parts mac m value) (ap split_dots e ∙ parts)
          ∙ taken (is_blank id || is_blank (mac m.secret id))
              (constant_time_compare (sign mac m id) value) (ground (arith, b, (hex m.secret id).1))
              ((constant_time_compare_iff (sign mac m id) value).1 (sym e))
        where
          parts : split_dots (sign mac m id) ≡ id ∷ mac m.secret id ∷ []
          parts =
              split_dots-append id (mac m.secret id) n
              ∙ ap (λ ps. id ∷ ps) (split_dots-no_dot (mac m.secret id) (hex m.secret id).0)

          taken :
              (x y : Bool)
              → x ≡ false
              → y ≡ true
              → (if x then none else if y then some id else none) ≡ some id
          taken x y f g = rw (f, g) refl
