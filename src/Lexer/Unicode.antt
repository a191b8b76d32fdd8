-- ===== src/Lexer/Unicode.antt =====
-- What src/compiler/lexer.cc calls of the libraries ICU and UTF8-CPP, and of the locale: the
-- parameters of the lexer. The classes of characters of the C library are those of the `C` locale,
-- since no part of the program sets another.
use axcomp.Prelude.{
  ℕ, ◌≡◌, ◌<◌, Bool, false, ◌&&◌, ◌||◌, List, ◌∷◌, [], Option, some, none, ◌==◌, leb, Text,
}

-- A `wchar_t` of 32 bits, as its bit pattern: the value -1 is `eof`.
abbrev pub eof : ℕ
eof = 0xffffffff

pub record Unicode : Type 0 where
  -- `utf8::is_valid` with the code points that `utf8::next` then reads, one after the other.
  pub decode : Text → Option (List ℕ)
  -- The bytes that `utf8::append` adds, or none where it throws `utf8::invalid_code_point`.
  pub append : ℕ → Option Text
  -- `u_isalnum`
  pub is_alnum : ℕ → Bool
  -- `std::wcrtomb`, or none where it answers -1.
  pub to_multibyte : ℕ → Option Text

-- What those libraries document and the theorems rely on.
pub record IsUnicode (u : Unicode) : Type 0 where
  -- -1 is no code point: it is neither alphanumeric nor encoded.
  pub is_alnum-eof : u.is_alnum eof ≡ false
  pub append-eof : u.append eof ≡ none
  -- An ASCII code point is its own encoding.
  pub append-ascii : (c : ℕ) → c < 128 → u.append c ≡ some (c ∷ [])

-- `std::iswdigit`, `std::iswxdigit` and `std::iswspace`
abbrev pub is_digit : ℕ → Bool
is_digit c = leb b'0' c && leb c b'9'

abbrev pub is_xdigit : ℕ → Bool
is_xdigit c = is_digit c || (leb b'A' c && leb c b'F') || (leb b'a' c && leb c b'f')

abbrev pub is_space : ℕ → Bool
is_space c = c == 32 || (leb 9 c && leb c 13)

-- `std::isupper` and `std::islower`
abbrev pub is_upper : ℕ → Bool
is_upper c = leb b'A' c && leb c b'Z'

abbrev pub is_lower : ℕ → Bool
is_lower c = leb b'a' c && leb c b'z'

abbrev within : ℕ → ℕ → ℕ → Bool
within lo hi c = leb lo c && leb c hi

-- `is_emoji`
unfoldable pub is_emoji : ℕ → Bool
is_emoji c =
    within 0x1f600 0x1f64f c
    || within 0x1f300 0x1f5ff c
    || within 0x1f680 0x1f6ff c
    || within 0x1f1e6 0x1f1ff c
    || within 0x2600 0x26ff c
    || within 0x2700 0x27bf c
    || within 0xe0020 0xe007f c
    || within 0xfe00 0xfe0f c
    || within 0x1f900 0x1f9ff c
    || within 0x1f018 0x1f270 c
    || within 0x238c 0x2454 c
    || within 0x20d0 0x20ff c
