-- ===== src/Query/Texts.antt =====
-- An order of texts that the assumptions on a database's collation admit: by code points, as the
-- binary collations have it.
use Prim.Native.Char.{code}
use Prim.Native.String.{String, [], ◌∷◌}
use text.Mathlib.TextEquality.{Char-path}
use gripe.Common.{◌≡◌, refl, Bool, true, false, arith, ltb, eqb, if◌then◌else◌}

-- What the stores rely on in the order of ids.
pub record IsCollation (lt : String → String → Bool) : Type 0 where
  pub asymmetric : (a b : String) → lt a b ≡ true → lt b a ≡ false
  pub transitive : (a b c : String) → lt b a ≡ false → lt c b ≡ false → lt c a ≡ false
  pub total : (a b : String) → lt a b ≡ false → lt b a ≡ false → a ≡ b

unfoldable pub text_ltb : String → String → Bool
text_ltb s [] = false
text_ltb [] (d ∷ t) = true
text_ltb (c ∷ s) (d ∷ t) =
    let rest = text_ltb s t in
    if ltb (code c) (code d) then true else if eqb (code c) (code d) then rest else false

asymmetric : (a b : String) → text_ltb a b ≡ true → text_ltb b a ≡ false
unfolding text_ltb
asymmetric [] [] h = ground arith
asymmetric [] (d ∷ t) h = refl
asymmetric (c ∷ s) [] h = ground arith
asymmetric (c ∷ s) (d ∷ t) h = ground (arith, asymmetric s t)

transitive : (a b c : String) → text_ltb b a ≡ false → text_ltb c b ≡ false → text_ltb c a ≡ false
unfolding text_ltb
transitive [] [] [] h k = refl
transitive [] [] (e ∷ u) h k = refl
transitive [] (d ∷ t) [] h k = refl
transitive [] (d ∷ t) (e ∷ u) h k = refl
transitive (c ∷ s) [] [] h k = ground arith
transitive (c ∷ s) [] (e ∷ u) h k = ground arith
transitive (c ∷ s) (d ∷ t) [] h k = ground arith
transitive (c ∷ s) (d ∷ t) (e ∷ u) h k = ground (arith, transitive s t u)

total : (a b : String) → text_ltb a b ≡ false → text_ltb b a ≡ false → a ≡ b
unfolding text_ltb
total [] [] h k = refl
total [] (d ∷ t) h k = ground arith
total (c ∷ s) [] h k = ground arith
total (c ∷ s) (d ∷ t) h k =
    let heads : code c ≡ code d = (ground arith) in
    let tails : s ≡ t = total s t (ground arith) (ground arith) in
    rw (Char-path c d heads, tails) refl

pub text_ltb-IsCollation : IsCollation text_ltb
text_ltb-IsCollation = record { asymmetric = asymmetric; transitive = transitive; total = total }
