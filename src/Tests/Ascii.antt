-- ===== src/Tests/Ascii.antt =====
-- Libraries that know ASCII alone: they meet what the theorems ask of ICU and UTF8-CPP.
use axcomp.Prelude.{
  ℕ, ◌<◌, ◌≡◌, refl, arith, Bool, true, ◌||◌, ◌&&◌, List, [], ◌∷◌, none, some, ltb, if◌then◌else◌,
}
use axcomp.Lexer.Unicode.{Unicode, IsUnicode, is_digit, is_upper, is_lower}

abbrev all_ascii : List ℕ → Bool
all_ascii [] = true
all_ascii (c ∷ s) = ltb c 128 && all_ascii s

abbrev pub ascii : Unicode
ascii = record {
  decode = λ s. if all_ascii s then some s else none;
  append = λ c. if ltb c 128 then some (c ∷ []) else none;
  is_alnum = λ c. is_digit c || is_upper c || is_lower c;
  to_multibyte = λ c. if ltb c 128 then some (c ∷ []) else none;
}

append-ascii : (c : ℕ) → c < 128 → (if ltb c 128 then some (c ∷ []) else none) ≡ some (c ∷ [])
append-ascii c h = ground arith

pub ascii-IsUnicode : IsUnicode ascii
ascii-IsUnicode = record { is_alnum-eof = refl; append-eof = refl; append-ascii = append-ascii }
