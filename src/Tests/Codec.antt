-- ===== src/Tests/Codec.antt =====
-- A way to write messages as texts and read them back, part by part.
use Prim.Native.Char.{code}
use moirae.Base.{
  ℕ, zero, suc, String, Bool, true, false, Option, none, some, List, [], ◌∷◌, ◌==◌, if◌then◌else◌,
  ◌≡◌, refl, length, ap,
}

-- `put` writes a value before a text, `pick` reads it off.
pub record Codec (A : Type 0) : Type 0 where
  pub put : A → String → String
  pub pick : String → A × String
  pub pick-put : (a : A) (rest : String) → pick (put a rest) ≡ (a, rest)

abbrev put_bool : Bool → String → String
put_bool true s = String.◌∷◌ "t" s
put_bool false s = String.◌∷◌ "f" s

abbrev pick_bool : String → Bool × String
pick_bool String.[] = (false, String.[])
pick_bool (String.◌∷◌ c s) = (code c == 116, s)

pub pick_bool-put_bool : (b : Bool) (rest : String) → pick_bool (put_bool b rest) ≡ (b, rest)
pick_bool-put_bool true rest = refl
pick_bool-put_bool false rest = refl

abbrev pub bool_codec : Codec Bool
bool_codec = record { put = put_bool; pick = pick_bool; pick-put = pick_bool-put_bool }

abbrev put_nat : ℕ → String → String
put_nat zero s = put_bool false s
put_nat (suc n) s = put_bool true (put_nat n s)

abbrev pick_nat : String → ℕ × String
pick_nat String.[] = (0, String.[])
pick_nat (String.◌∷◌ c s) = let (n, r) = pick_nat s in if code c == 116 then (suc n, r) else (0, s)

pub pick_nat-put_nat : (n : ℕ) (rest : String) → pick_nat (put_nat n rest) ≡ (n, rest)
pick_nat-put_nat zero rest = refl
pick_nat-put_nat (suc n) rest = ap (λ p. (suc p.0, p.1)) (pick_nat-put_nat n rest)

abbrev pub nat_codec : Codec ℕ
nat_codec = record { put = put_nat; pick = pick_nat; pick-put = pick_nat-put_nat }

abbrev chars : String → ℕ
chars String.[] = 0
chars (String.◌∷◌ c s) = suc (chars s)

abbrev put_chars : String → String → String
put_chars String.[] r = r
put_chars (String.◌∷◌ c s) r = String.◌∷◌ c (put_chars s r)

abbrev pick_chars : ℕ → String → String × String
pick_chars zero s = (String.[], s)
pick_chars (suc n) String.[] = (String.[], String.[])
pick_chars (suc n) (String.◌∷◌ c s) = let (t, r) = pick_chars n s in (String.◌∷◌ c t, r)

pub pick_chars-put_chars : (t rest : String) → pick_chars (chars t) (put_chars t rest) ≡ (t, rest)
pick_chars-put_chars String.[] rest = refl
pick_chars-put_chars (String.◌∷◌ c t) rest =
    ap (λ p. (String.◌∷◌ c p.0, p.1)) (pick_chars-put_chars t rest)

abbrev pub text_codec : Codec String
text_codec = record {
  put = λ t r. put_nat (chars t) (put_chars t r);
  pick = λ s. pick_chars (pick_nat s).0 (pick_nat s).1;
  pick-put = λ t r. rw (pick_nat-put_nat (chars t)) (pick_chars-put_chars t r);
}

module _ {A B : Type 0} (a : Codec A) (b : Codec B) where
  abbrev pub pair_codec : Codec (A × B)
  pair_codec = record {
    put = λ p r. a.put p.0 (b.put p.1 r);
    pick = λ s. (((a.pick s).0, (b.pick (a.pick s).1).0), (b.pick (a.pick s).1).1);
    pick-put = λ p r. rw (a.pick-put p.0, b.pick-put p.1) refl;
  }

module _ {A : Type 0} (a : Codec A) where
  abbrev put_option : Option A → String → String
  put_option none r = put_bool false r
  put_option (some x) r = put_bool true (a.put x r)

  abbrev pick_option : String → Option A × String
  pick_option s = elim (pick_bool s).0 [
    | true ↦ (some (a.pick (pick_bool s).1).0, (a.pick (pick_bool s).1).1)
    | false ↦ (none, (pick_bool s).1)
  ]

  pub pick_option-put_option :
      (o : Option A) (rest : String) → pick_option (put_option o rest) ≡ (o, rest)
  pick_option-put_option none rest = refl
  pick_option-put_option (some x) rest = rw (a.pick-put x) refl

  abbrev pub option_codec : Codec (Option A)
  option_codec = record { put = put_option; pick = pick_option; pick-put = pick_option-put_option }

  abbrev put_all : List A → String → String
  put_all [] r = r
  put_all (x ∷ xs) r = a.put x (put_all xs r)

  abbrev pick_all : ℕ → String → List A × String
  pick_all zero s = ([], s)
  pick_all (suc n) s = let (xs, r) = pick_all n (a.pick s).1 in ((a.pick s).0 ∷ xs, r)

  pub pick_all-put_all :
      (xs : List A) (rest : String) → pick_all (length xs) (put_all xs rest) ≡ (xs, rest)
  pick_all-put_all [] rest = refl
  pick_all-put_all (x ∷ xs) rest =
      rw (a.pick-put x) (ap (λ p. (x ∷ p.0, p.1)) (pick_all-put_all xs rest))

  abbrev pub list_codec : Codec (List A)
  list_codec = record {
    put = λ xs r. put_nat (length xs) (put_all xs r);
    pick = λ s. pick_all (pick_nat s).0 (pick_nat s).1;
    pick-put = λ xs r. rw (pick_nat-put_nat (length xs)) (pick_all-put_all xs r);
  }

module _ {A B : Type 0} (a : Codec A) (to : B → A) (from : A → B)
    (from-to : (b : B) → from (to b) ≡ b) where
  abbrev pub view_codec : Codec B
  view_codec = record {
    put = λ b r. a.put (to b) r;
    pick = λ s. (from (a.pick s).0, (a.pick s).1);
    pick-put = λ b r. rw (a.pick-put (to b)) (ap (λ x. (x, r)) (from-to b));
  }
