-- ===== src/SqlServer/Quoting.antt =====
-- The quoted identifiers of quoteIdent: a reader of SQL finds the name, and nothing after its end.
use mathlib.Core.Bool.{false≢true}
use Prim.Native.Char.{Char, code}
use Prim.Native.String.{[] as nil, ◌∷◌ as cons}
use miniblue.Prelude.{
  String, Bool, true, false, ◌≡◌, refl, sym, Option, none, some, ◌++◌, eqb, Bool-cases, inl, inr,
  arith, has_prefix, if◌then◌else◌,
}
use miniblue.Prelude.Text.{append_assoc}
use miniblue.SqlServer.{doubled, quoted}
use miniblue.DbPostgres
use miniblue.DbMysql

begun : Char → Option (String × String) → Option (String × String)
begun c none = none
begun c (some (s, rest)) = some (cons c s, rest)

-- The rest of an identifier, after a quote that may be its end, or not: two quotes are one, and a
-- single one ends it.
read_on : (q : Char) → (after_quote : Bool) → String → Option (String × String)
read_on q false nil = none
read_on q true nil = some (nil, nil)
read_on q false (cons c s) =
    let more = read_on q false s in
    let end = read_on q true s in if eqb (code c) (code q) then end else begun c more
read_on q true (cons c s) =
    let more = read_on q false s in
    if eqb (code c) (code q) then begun c more else some (nil, cons c s)

-- an identifier in quotes, and what follows it
pub read_identifier : (q : Char) → String → Option (String × String)
read_identifier q nil = none
read_identifier q (cons c s) = if eqb (code c) (code q) then read_on q false s else none

same_code : (c : Char) → eqb (code c) (code c) ≡ true
same_code c = ground arith

read_on-end :
    (q : Char) (rest : String)
    → has_prefix rest (cons q nil) ≡ false
    → read_on q true rest ≡ some (nil, rest)
unfolding read_on has_prefix
read_on-end q nil h = refl
read_on-end q (cons c s) h = elim (Bool-cases (eqb (code c) (code q))) [
  | inl e ↦ absurd (false≢true (sym (rw e at h)))
  | inr e ↦ rw e refl
]

read_on-doubled :
    (q : Char) (s rest : String)
    → has_prefix rest (cons q nil) ≡ false
    → read_on q false (doubled q s ++ cons q rest) ≡ some (s, rest)
unfolding read_on doubled ◌++◌ begun
read_on-doubled q nil rest h = rw (same_code q) (read_on-end q rest h)
read_on-doubled q (cons c s) rest h = elim (Bool-cases (eqb (code c) (code q))) [
  | inl e ↦ rw (e, e, read_on-doubled q s rest h) refl
  | inr e ↦ rw (e, e, read_on-doubled q s rest h) refl
]

read_identifier-quoted :
    (q : Char) (s rest : String)
    → has_prefix rest (cons q nil) ≡ false
    → read_identifier q (quoted q s ++ rest) ≡ some (s, rest)
unfolding read_identifier quoted ◌++◌
read_identifier-quoted q s rest h =
    rw (same_code q, append_assoc (doubled q s) (cons q nil) rest) (read_on-doubled q s rest h)

-- What quoteIdent makes of any name is read as that name and nothing else, in either dialect, if no
-- quote follows it.
pub quote_ident_lem :
    (s rest : String)
    → has_prefix rest "\"" ≡ false
    → has_prefix rest "`" ≡ false
    → (read_identifier "\"" (DbPostgres.quote_ident s ++ rest) ≡ some (s, rest))
      × (read_identifier "`" (DbMysql.quote_ident s ++ rest) ≡ some (s, rest))
unfolding DbPostgres.quote_ident DbMysql.quote_ident
quote_ident_lem s rest h h' =
    (read_identifier-quoted "\"" s rest h, read_identifier-quoted "`" s rest h')
