-- ===== src/Lexer/Keywords.antt =====
-- Identifiers and keywords: `keyword_map` and the end of `scan_ident` in src/compiler/lexer.cc.
use axcomp.Prelude.{
  ℕ, ◌+◌, ◌≡◌, ◌≢◌, refl, ◌⊎◌, inl, inr, ap, subst, ◌∙◌, arith, Bool, true, false, not, ◌&&◌, List,
  [], ◌∷◌, map, Option, none, some, if◌then◌else◌, Text, ◌==◌, text_eq, text_eq_iff, ==_iff,
  Bool-cases, Option-cases,
}
use axcomp.Token.{Token, TokenType, spelled, ident, type_name, type_eq, ordinal}
use axcomp.Token.Enumeration.{type_eq→eq}
use axcomp.Lexer.Tables.{keyword_map, find_keyword}
use axcomp.Lexer.Scan.{has_upper, has_lower, upper, found_or, classify}
use axcomp.Lexer.Unicode.{is_upper}

-- Capitals to small letters.
abbrev pub lower : ℕ → ℕ
lower c = if is_upper c then c + 32 else c

token_eq : Token → Token → Bool
token_eq s t = type_eq s.type t.type && text_eq s.val t.val && s.val_int == t.val_int

token_eq→eq : (s t : Token) → token_eq s t ≡ true → s ≡ t
unfolding token_eq
token_eq→eq s t h =
    let (same_type, same_val, same_int) = parts _ _ _ h in
    λ i. record {
      type = type_eq→eq s.type t.type same_type i;
      val = (text_eq_iff s.val t.val).0 same_val i;
      val_int = (==_iff s.val_int t.val_int).0 same_int i;
    }
  where
    parts : (a b c : Bool) → (a && b && c) ≡ true → (a ≡ true) × (b ≡ true) × (c ≡ true)
    parts true true true h = (refl, refl, refl)
    parts false b c h = cc
    parts true false c h = cc
    parts true true false h = cc

-- An entry of the table as it should be: its key is the name of the type in capitals, and that word
-- is recognised in capitals and in small letters.
is_entry : Text × Token → Bool
is_entry (s, t) =
    token_eq t (spelled t.type s)
    && text_eq s (type_name t.type)
    && token_eq (classify s) t
    && token_eq (classify (map lower s)) t
    && text_eq (map upper s) s
    && not (type_eq t.type ident)

all_entries : List (Text × Token) → Bool
all_entries [] = true
all_entries (e ∷ m) = is_entry e && all_entries m

keyword_map-entries : all_entries keyword_map ≡ true
unfolding all_entries is_entry token_eq classify has_upper has_lower upper find_keyword type_name
    text_eq ordinal
keyword_map-entries = refl

-- `find` gives an entry whose key is the text.
find_keyword-entry :
    (s : Text) (m : List (Text × Token)) {t : Token}
    → all_entries m ≡ true
    → find_keyword s m ≡ some t
    → is_entry (s, t) ≡ true
unfolding all_entries find_keyword
find_keyword-entry s [] a h = cc
find_keyword-entry s ((k, t) ∷ m) {t = found} a h = elim (Bool-cases (text_eq k s)) [
  | inl e ↦ subst (λ w. is_entry (w, found) ≡ true) ((text_eq_iff k s).0 e) (ground arith)
  | inr e ↦ find_keyword-entry s m (ground arith) (ground arith)
]

-- What the keyword of a word is known for.
record IsKeyword (s : Text) (t : Token) : Type 0 where
  token : t ≡ spelled t.type (type_name t.type)
  name : s ≡ type_name t.type
  capitals : map upper s ≡ s
  reserved : t.type ≢ ident

is_entry→IsKeyword : (s : Text) (t : Token) → is_entry (s, t) ≡ true → IsKeyword s t
unfolding is_entry ordinal
is_entry→IsKeyword s t h =
    let name : s ≡ type_name t.type = (text_eq_iff s (type_name t.type)).0 (ground arith) in
    record {
      token = token_eq→eq t (spelled t.type s) (ground arith) ∙ ap (spelled t.type) name;
      name = name;
      capitals = (text_eq_iff (map upper s) s).0 (ground arith);
      reserved = λ e. same_type (rw e at (differs t.type (ground arith)));
    }
  where
    differs : (a : TokenType) → not (type_eq a ident) ≡ true → type_eq a ident ≡ false
    differs a k = ground arith

    same_type : type_eq ident ident ≡ false → ⊥
    same_type k = cc

find_keyword-IsKeyword :
    (s : Text) {t : Token} → find_keyword s keyword_map ≡ some t → IsKeyword s t
find_keyword-IsKeyword s {t} h =
    is_entry→IsKeyword s t (find_keyword-entry s keyword_map keyword_map-entries h)

-- A word without small letters is its own spelling in capitals.
map-upper : (s : Text) → has_lower s ≡ false → map upper s ≡ s
unfolding has_lower upper
map-upper [] h = refl
map-upper (c ∷ s) h = ground (arith, map-upper s)

-- The two orders of lookup agree where a word that is found is its own spelling in capitals.
lookup_small :
    (mixed : Bool) (o : Option Token) (d : Token)
    → (if not (mixed && false) then found_or o d else d)
      ≡ (if mixed && false then d else found_or o d)
lookup_small true o d = refl
lookup_small false o d = refl

lookup_twice :
    (mixed : Bool) (o p : Option Token) (d : Token)
    → ((t : Token) → o ≡ some t → p ≡ some t)
    → (if not (mixed && true) then found_or o (found_or p d) else d)
      ≡ (if mixed && true then d else found_or p d)
lookup_twice true o p d h = refl
lookup_twice false none p d h = refl
lookup_twice false (some t) p d h = rw (h t refl) refl

-- The keywords are recognised without regard to case, but for words that mix the cases: an
-- identifier that has both is no keyword, and any other is looked up in capitals.
pub classify_lem :
    (s : Text)
    → classify s ≡ (
        if has_upper s && has_lower s
        then spelled ident s
        else found_or (find_keyword (map upper s) keyword_map) (spelled ident s))
unfolding classify
classify_lem s = elim (Bool-cases (has_lower s)) [
  | inr small ↦
      rw (map-upper s small, small)
        (lookup_small (has_upper s) (find_keyword s keyword_map) (spelled ident s))
  | inl small ↦ rw small (
      lookup_twice (has_upper s) (find_keyword s keyword_map)
        (find_keyword (map upper s) keyword_map) (spelled ident s)
        λ t h. rw (find_keyword-IsKeyword s h).capitals h)
]

-- What the lexer returns for a word is that word as an identifier, or a keyword: then the word is
-- the keyword's name in capitals or in small letters, and the token carries the name in capitals.
pub classify_cases :
    (s : Text)
    → (classify s ≡ spelled ident s)
      ⊎ ((t : TokenType) × (t ≢ ident)
          × (classify s ≡ spelled t (type_name t))
          × (map upper s ≡ type_name t)
          × ((has_upper s && has_lower s) ≡ false))
classify_cases s = elim (Bool-cases (has_upper s && has_lower s)) [
  | inl mixed ↦ inl (classify_lem s ∙ rw mixed refl)
  | inr pure ↦ elim (Option-cases (find_keyword (map upper s) keyword_map)) [
    | inl absent ↦ inl (classify_lem s ∙ rw (pure, absent) refl)
    | inr (t, found) ↦
        let known = find_keyword-IsKeyword (map upper s) found in
        inr
          (t.type, known.reserved, classify_lem s ∙ rw (pure, found) known.token, known.name, pure)
  ]
]

-- Every keyword of the table is recognised in capitals and in small letters.
pub keywords_recognised :
    (s : Text) (t : Token)
    → find_keyword s keyword_map ≡ some t
    → (classify s ≡ t) × (classify (map lower s) ≡ t)
unfolding is_entry
keywords_recognised s t h =
    let entry = find_keyword-entry s keyword_map keyword_map-entries h in
    (
      token_eq→eq (classify s) t (ground arith),
      token_eq→eq (classify (map lower s)) t (ground arith),
    )
