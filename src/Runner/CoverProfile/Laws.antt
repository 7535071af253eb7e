-- ===== src/Runner/CoverProfile/Laws.antt =====
-- internal/runner/runner.go: `parseCoverProfile` beside a printer of profiles.
use kanly.Base.{
  ℕ, ◌^◌, ◌<◌, ◌≡◌, refl, ap, ◌∙◌, Bool, true, false, Text, codes, List, [], ◌∷◌, ◌++◌, Option,
  none, some, arith, contains, nat_beq, map, All, Bool-cases, inl, inr, if◌then◌else◌, nat_eq,
}
use kanly.Base.Attempt.{Attempt, done, ◌>>=◌}
use kanly.Base.Decimal.{itoa, atoi-itoa, itoa-any, itoa-digits, is_digit}
use kanly.Base.Int.{pos}
use kanly.Base.Strings.{
  is_space, Avoids, Avoids-append, contains-any, fields, fields_from-append, fields_from-last,
  cut_byte-append, cut_last-append, cut_prefix-append, add_field,
}
use kanly.Runner.CoverProfile.{
  CoverBlock, ProfileError, parse_block, parse_cover_line, parse_blocks, parse_cover_profile,
  add_block,
}

-- A block as `go test` writes it.
pub record ProfileLine : Type 0 where
  pub file : Text
  pub start_line : ℕ
  pub start_col : ℕ
  pub end_line : ℕ
  pub end_col : ℕ
  pub stmts : ℕ
  pub count : ℕ

abbrev start_of : ProfileLine → Text
start_of e = itoa e.start_line ++ b'.' ∷ itoa e.start_col

abbrev end_of : ProfileLine → Text
end_of e = itoa e.end_line ++ b'.' ∷ itoa e.end_col

abbrev range_of : ProfileLine → Text
range_of e = start_of e ++ b',' ∷ end_of e

abbrev rest_of : ProfileLine → Text
rest_of e = range_of e ++ 32 ∷ (itoa e.stmts ++ 32 ∷ itoa e.count)

abbrev pub print : ProfileLine → Text
print e = e.file ++ b':' ∷ rest_of e

-- The numbers that are read fit 63 bits.
abbrev pub Fits : ProfileLine → Type 0
Fits e = (e.start_line < 2 ^ 63) × ((e.end_line < 2 ^ 63) × (e.count < 2 ^ 63))

abbrev pub block_of : ProfileLine → CoverBlock
block_of e = record {
  file = e.file;
  start_line = pos e.start_line;
  end_line = pos e.end_line;
  count = pos e.count;
}

-- The blocks that were run.
abbrev pub executed : List ProfileLine → List CoverBlock
executed [] = []
executed (e ∷ es) = if nat_beq e.count 0 then executed es else block_of e ∷ executed es

module _ (t : ℕ → Bool) (digits : (c : ℕ) → is_digit c ≡ true → t c ≡ false)
    (dot : t b'.' ≡ false) where
  pair-Avoids : (n m : ℕ) → Avoids t (itoa n ++ b'.' ∷ itoa m)
  pair-Avoids n m =
      Avoids-append t (itoa n) b'.' (itoa m) (itoa-any t digits n) dot (itoa-any t digits m)

  range-Avoids : (e : ProfileLine) → t b',' ≡ false → Avoids t (range_of e)
  range-Avoids e comma =
      Avoids-append t (start_of e) b',' (end_of e) (pair-Avoids e.start_line e.start_col) comma
        (pair-Avoids e.end_line e.end_col)

space_digits : (c : ℕ) → is_digit c ≡ true → is_space c ≡ false
unfolding is_space
space_digits c h = ground arith

dot_space : is_space b'.' ≡ false
unfolding is_space
dot_space = refl

comma_space : is_space b',' ≡ false
unfolding is_space
comma_space = refl

colon_digits : (c : ℕ) → is_digit c ≡ true → nat_beq c b':' ≡ false
colon_digits c h = ground arith

comma_digits : (c : ℕ) → is_digit c ≡ true → nat_beq c b',' ≡ false
comma_digits c h = ground arith

dot_digits : (c : ℕ) → is_digit c ≡ true → nat_beq c b'.' ≡ false
dot_digits c h = ground arith

rest-colon : (e : ProfileLine) → contains (rest_of e) b':' ≡ false
rest-colon e =
    let t : ℕ → Bool = λ c. nat_beq c b':' in
    contains-any (rest_of e) b':'
    ∙ Avoids-append t (range_of e) 32 (itoa e.stmts ++ 32 ∷ itoa e.count)
        (range-Avoids t colon_digits refl e refl) refl
        (Avoids-append t (itoa e.stmts) 32 (itoa e.count) (itoa-any t colon_digits e.stmts) refl
          (itoa-any t colon_digits e.count))

start-comma : (e : ProfileLine) → contains (start_of e) b',' ≡ false
start-comma e =
    contains-any (start_of e) b','
    ∙ pair-Avoids (λ c. nat_beq c b',') comma_digits refl e.start_line e.start_col

number-dot : (n : ℕ) → contains (itoa n) b'.' ≡ false
number-dot n = contains-any (itoa n) b'.' ∙ itoa-any (λ c. nat_beq c b'.') dot_digits n

add_field-itoa :
    (n : ℕ) (s : Text) (fs : List Text) → add_field (itoa n ++ s) fs ≡ (itoa n ++ s) ∷ fs
add_field-itoa n s fs = let (c, r, e) = (itoa-digits n).1 in rw e refl

add_field-number : (n : ℕ) (fs : List Text) → add_field (itoa n) fs ≡ itoa n ∷ fs
add_field-number n fs = let (c, r, e) = (itoa-digits n).1 in rw e refl

add_field-range : (e : ProfileLine) (fs : List Text) → add_field (range_of e) fs ≡ range_of e ∷ fs
add_field-range e fs = let (c, r, h) = (itoa-digits e.start_line).1 in rw h refl

fields-rest : (e : ProfileLine) → fields (rest_of e) ≡ range_of e ∷ itoa e.stmts ∷ itoa e.count ∷ []
fields-rest e =
    fields_from-append [] (range_of e) (itoa e.stmts ++ 32 ∷ itoa e.count)
      (range-Avoids is_space space_digits dot_space e comma_space)
    ∙ (add_field-range e _
        ∙ ap (λ fs. range_of e ∷ fs)
            (fields_from-append [] (itoa e.stmts) (itoa e.count)
                (itoa-any is_space space_digits e.stmts)
              ∙ (add_field-number e.stmts _
                  ∙ ap (λ fs. itoa e.stmts ∷ fs)
                      (fields_from-last [] (itoa e.count) (itoa-any is_space space_digits e.count)
                        ∙ add_field-number e.count []))))

parse_block-range :
    (line : Text) (e : ProfileLine)
    → Fits e
    → parse_block line e.file (range_of e) (pos e.count) ≡ done (block_of e)
unfolding parse_block
parse_block-range line e (fs, (fe, fc)) =
    rw
      (
        cut_byte-append b',' (start_of e) (end_of e) (start-comma e),
        cut_byte-append b'.' (itoa e.start_line) (itoa e.start_col) (number-dot e.start_line),
        atoi-itoa e.start_line fs,
        cut_byte-append b'.' (itoa e.end_line) (itoa e.end_col) (number-dot e.end_line),
        atoi-itoa e.end_line fe,
      )
      refl

-- What is left of a line once its fields and its count are read.
abbrev read_count : Bool → ProfileLine → Attempt ProfileError (Option CoverBlock)
read_count skip e = elim skip [
  | true ↦ done none
  | false ↦ parse_block (print e) e.file (range_of e) (pos e.count) >>= λ block. done (some block)
]

abbrev pub run_block : ProfileLine → Option CoverBlock
run_block e = if nat_beq e.count 0 then none else some (block_of e)

read_count_lem :
    (skip : Bool) (e : ProfileLine)
    → Fits e
    → read_count skip e ≡ done (if skip then none else some (block_of e))
read_count_lem true e f = refl
read_count_lem false e f = rw (parse_block-range (print e) e f) refl

parse_cover_line-print :
    (e : ProfileLine) → Fits e → parse_cover_line (print e) ≡ done (run_block e)
unfolding parse_cover_line
parse_cover_line-print e f =
    rw
      (
        cut_last-append b':' e.file (rest_of e) (rest-colon e),
        fields-rest e,
        atoi-itoa e.count f.1.1,
      )
      (read_count_lem (nat_beq e.count 0) e f)

parse_blocks-cons :
    (line : Text) (lines : List Text) (c : ℕ) (r : Text)
    → line ≡ c ∷ r
    → parse_blocks (line ∷ lines) ≡ (
        parse_cover_line line >>= λ block.
        parse_blocks lines >>= λ blocks. done (add_block block blocks))
unfolding parse_blocks
parse_blocks-cons line lines c r e = rw e refl

print-text : (e : ProfileLine) → (c : ℕ) × (r : Text) × (print e ≡ c ∷ r)
print-text e = start e.file
  where
    start : (file : Text) → (c : ℕ) × (r : Text) × (file ++ b':' ∷ rest_of e ≡ c ∷ r)
    start [] = (b':', rest_of e, refl)
    start (c ∷ file) = (c, file ++ b':' ∷ rest_of e, refl)

parse_blocks-print :
    (es : List ProfileLine) → All Fits es → parse_blocks (map print es) ≡ done (executed es)
unfolding parse_blocks
parse_blocks-print [] f = refl
parse_blocks-print (e ∷ es) f =
    let (c, r, h) = print-text e in
    parse_blocks-cons (print e) (map print es) c r h
    ∙ rw (parse_cover_line-print e f.0, parse_blocks-print es f.1)
        (elim (Bool-cases (nat_beq e.count 0)) [ inl b ↦ rw b refl | inr b ↦ rw b refl ])

-- A profile that lists blocks behind a line that starts with "mode:", whose line numbers and counts
-- fit 63 bits, is read as the blocks whose count is not 0, in order.
pub parse_cover_profile-print :
    (mode : Text) (es : List ProfileLine)
    → All Fits es
    → parse_cover_profile ((codes "mode:" ++ mode) ∷ map print es) ≡ done (executed es)
unfolding parse_cover_profile
parse_cover_profile-print mode es f =
    rw (cut_prefix-append (codes "mode:") mode) (parse_blocks-print es f)
