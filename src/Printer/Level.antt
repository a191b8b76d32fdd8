-- ===== src/Printer/Level.antt =====
-- The indentation of `ASTPrinter`: src/compiler/printer.hh.
use axcomp.Prelude.{
  ℕ, zero, suc, ◌+◌, ◌-◌, ◌*◌, ◌==◌, [], ◌∷◌, ◌++◌, Option, none, some, if◌then◌else◌, Text,
}

-- A print: from `level`, what is written and the level that is left, or none where a character has no
-- encoding in UTF-8.
abbrev pub Print : Type 0
Print = ℕ → Option (Text × ℕ)

abbrev pub behind : Text → Option (Text × ℕ) → Option (Text × ℕ)
behind s none = none
behind s (some (t, l)) = some (s ++ t, l)

abbrev pub then_print : Option (Text × ℕ) → Print → Option (Text × ℕ)
then_print none q = none
then_print (some (s, l)) q = behind s (q l)

infixr 30 ◌<+>◌
unfoldable pub ◌<+>◌ : Print → Print → Print
(p <+> q) l = then_print (p l) q

unfoldable pub emit : Text → Print
emit s l = some (s, l)

-- What is printed without a look at the level.
unfoldable pub shown : Option Text → Print
shown none l = none
shown (some s) l = some (s, l)

-- `push` and `pop`, on a `size_t`.
unfoldable pub push : Print
push l = some ([], l + 1)

unfoldable pub pop : Print
pop l = some ([], if l == 0 then 0xffffffffffffffff else l - 1)

abbrev pub spaces : ℕ → Text
spaces zero = []
spaces (suc n) = b' ' ∷ spaces n

-- `indent`, where `indent_width` is `w`.
unfoldable pub indent : ℕ → Print
indent w l = some (spaces (w * l), l)
