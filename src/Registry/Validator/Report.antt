-- ===== src/Registry/Validator/Report.antt =====
-- internal/registry/validator.go: what a check reports, and the text functions that the checks share.
use Prim.Native.Char.{code}
use sdbx.Base.{
  ℕ, zero, suc, String, Bool, true, false, ◌&&◌, ◌||◌, List, [], ◌∷◌, ◌++◌, Message, nat_eq, leb,
  codes, has_prefix, ◌<>◌, ◌==◌, if◌then◌else◌, ◌≡◌, refl,
}
use Prim.Native.Nat.{◌/◌, ◌%◌}
use sdbx.Registry.Types.Resolved.{ValidationError}

-- An error of the definition, if the test holds.
unfoldable pub report : Bool → String → Message → List ValidationError
report true field message = record { field = field; message = message; severity = "error" } ∷ []
report false field message = []

unfoldable pub advise : Bool → String → Message → List ValidationError
advise true field message = record { field = field; message = message; severity = "warning" } ∷ []
advise false field message = []

abbrev pub say : String → Message
say format = record { format = format; args = [] }

abbrev pub say_of : String → String → Message
say_of format arg = record { format = format; args = arg ∷ [] }

abbrev pub say_both : String → String → String → Message
say_both format a b = record { format = format; args = a ∷ b ∷ [] }

-- A check of each element, with its index.
unfoldable pub each {ℓ} :
    {A : Type ℓ} → (ℕ → A → List ValidationError) → ℕ → List A → List ValidationError
each f i [] = []
each f i (x ∷ xs) = f i x ++ each f (suc i) xs

digit : ℕ → String
digit zero = "0"
digit (suc zero) = "1"
digit (suc (suc zero)) = "2"
digit (suc (suc (suc zero))) = "3"
digit (suc (suc (suc (suc zero)))) = "4"
digit (suc (suc (suc (suc (suc zero))))) = "5"
digit (suc (suc (suc (suc (suc (suc zero)))))) = "6"
digit (suc (suc (suc (suc (suc (suc (suc zero))))))) = "7"
digit (suc (suc (suc (suc (suc (suc (suc (suc zero)))))))) = "8"
digit (suc (suc (suc (suc (suc (suc (suc (suc (suc n))))))))) = "9"

digits : ℕ → ℕ → String → String
digits zero n acc = acc
digits (suc fuel) n acc =
    let more = digits fuel (n / 10) (digit (n % 10) <> acc) in
    if leb n 9 then digit n <> acc else more

-- %d
unfoldable pub decimal : ℕ → String
unfolding digits digit
decimal n = digits (suc n) n ""

-- The name of an element of a list, and of a part of it.
unfoldable pub item : String → ℕ → String → String
item list i part = list <> "[" <> decimal i <> "]" <> part

-- strings.Contains, on code points
unfoldable pub has_infix : List ℕ → List ℕ → Bool
has_infix [] p = has_prefix [] p
has_infix (c ∷ s) p = has_prefix (c ∷ s) p || has_infix s p

unfoldable pub holds_text : String → String → Bool
holds_text s sub = has_infix (codes s) (codes sub)

-- The part of a text before the first occurrence of a character, as strings.Cut returns it.
unfoldable pub before : ℕ → String → String
before sep String.[] = ""
before sep (String.◌∷◌ c s) =
    let rest = before sep s in if nat_eq (code c) sep then "" else String.◌∷◌ c rest

is_quote : ℕ → Bool
is_quote c = nat_eq c 0x22 || nat_eq c 0x27

drop_quotes : String → String
drop_quotes String.[] = ""
drop_quotes (String.◌∷◌ c s) =
    let rest = drop_quotes s in if is_quote (code c) then rest else String.◌∷◌ c s

drop_last_quotes : String → String
drop_last_quotes String.[] = ""
drop_last_quotes (String.◌∷◌ c s) =
    let rest = drop_last_quotes s in
    if rest == "" && is_quote (code c) then "" else String.◌∷◌ c rest

-- strings.Trim(value, `"'`)
unfoldable pub trim_quotes : String → String
unfolding drop_quotes drop_last_quotes is_quote
trim_quotes s = drop_last_quotes (drop_quotes s)

decimal_test : (decimal 0 ≡ "0") × (decimal 10 ≡ "10") × (decimal 1234 ≡ "1234")
unfolding decimal
decimal_test = (refl, refl, refl)

text_test :
    (holds_text "/dev/mem:/dev/mem" "/dev/mem" ≡ true)
    × (before b':' "/tmp:size=1" ≡ "/tmp")
    × (trim_quotes "\"'a'b\"" ≡ "a'b")
unfolding holds_text has_infix before trim_quotes has_prefix
text_test = (refl, refl, refl)
