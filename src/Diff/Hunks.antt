-- ===== src/Diff/Hunks.antt =====
-- internal/diff/diff.go: the header of a hunk, as git prints it and as `ParseDiff` reads it.
use kanly.Base.{
  ℕ, zero, suc, ◌+◌, ◌^◌, ◌<◌, ◌≡◌, refl, ◌∙◌, ap, Bool, true, not, Text, codes, List, [], ◌∷◌,
  ◌++◌, Option, none, some, arith, text_eq,
}
use kanly.Base.Decimal.{itoa, atoi-itoa, is_digit, all_digits, itoa-digits}
use kanly.Base.Int.{pos, negsuc, ◌+ℤ◌, int_eq, wrap_64, wrap_64_small, pos_+ℤ_pos, pos_pred}
use kanly.Base.Strings.{cut_prefix, cut_prefix-append}
use kanly.Diff.{
  LineRange, span_digits, number, opt_count, match_hunk, range_from, hunk_range, count_of,
}

-- A text that begins with a digit is read further by `number`.
abbrev stops_digits : Text → Bool
stops_digits [] = true
stops_digits (c ∷ s) = not (is_digit c)

span_digits-append :
    (s rest : Text)
    → all_digits s ≡ true
    → stops_digits rest ≡ true
    → span_digits (s ++ rest) ≡ (s, rest)
unfolding span_digits
span_digits-append [] [] h k = refl
span_digits-append [] (c ∷ rest) h k = ground arith
span_digits-append (c ∷ s) rest h k =
    let e : all_digits s ≡ true = ground arith in
    let d : is_digit c ≡ true = ground arith in rw (span_digits-append s rest e k, d) refl

number-itoa :
    (n : ℕ) (rest : Text) → stops_digits rest ≡ true → number (itoa n ++ rest) ≡ some (itoa n, rest)
unfolding number
number-itoa n rest k =
    let (d, (c, s, e)) = itoa-digits n in rw (span_digits-append (itoa n) rest d k, e) refl

opt_count-itoa :
    (n : ℕ) (rest : Text)
    → stops_digits rest ≡ true
    → opt_count (codes "," ++ (itoa n ++ rest)) ≡ (some (itoa n), rest)
unfolding opt_count
opt_count-itoa n rest k =
    rw (cut_prefix-append (codes ",") (itoa n ++ rest), opt_count, number-itoa n rest k) refl

-- One side of a hunk: its first line, and its number of lines, which is left out where it is 1.
pub record Side : Type 0 where
  pub start : ℕ
  pub count : Option ℕ

abbrev lines_of : Option ℕ → ℕ
lines_of none = 1
lines_of (some n) = n

abbrev pub lines_in : Side → ℕ
lines_in side = lines_of side.count

abbrev count_text : Option ℕ → Text
count_text none = []
count_text (some n) = codes "," ++ itoa n

abbrev digits_of : Option ℕ → Option Text
digits_of none = none
digits_of (some n) = some (itoa n)

-- A hunk with the lines of its text.
pub record Hunk : Type 0 where
  pub old : Side
  pub new : Side
  pub context : Text
  pub text : List Text

abbrev pub hunk_header : Side → Side → Text → Text
hunk_header old new context =
    codes "@@ -"
    ++ (itoa old.start
        ++ (count_text old.count
            ++ (codes " +"
                ++ (itoa new.start ++ (count_text new.count ++ (codes " @@" ++ context))))))

number-side :
    (n : ℕ) (count : Option ℕ) (rest : Text)
    → stops_digits rest ≡ true
    → number (itoa n ++ (count_text count ++ rest)) ≡ some (itoa n, count_text count ++ rest)
number-side n none rest k = number-itoa n rest k
number-side n (some m) rest k = number-itoa n (codes "," ++ itoa m ++ rest) refl

opt_count-side :
    (count : Option ℕ) (rest : Text)
    → opt_count (count_text count ++ 32 ∷ rest) ≡ (digits_of count, 32 ∷ rest)
unfolding opt_count cut_prefix
opt_count-side none rest = refl
opt_count-side (some n) rest = opt_count-itoa n (32 ∷ rest) refl

match_hunk-header :
    (old new : Side) (context : Text)
    → match_hunk (hunk_header old new context) ≡ some (itoa new.start, digits_of new.count)
unfolding match_hunk
match_hunk-header old new context =
    let tail = codes " @@" ++ context in
    let new_side = itoa new.start ++ (count_text new.count ++ tail) in
    let old_side = count_text old.count ++ (codes " +" ++ new_side) in
    rw
      (
        cut_prefix-append (codes "@@ -") (itoa old.start ++ old_side),
        number-side old.start old.count (codes " +" ++ new_side) refl,
        opt_count-side old.count (codes "+" ++ new_side),
        cut_prefix-append (codes " +") new_side,
        number-side new.start new.count tail refl,
        opt_count-side new.count (codes "@@" ++ context),
        cut_prefix-append (codes " @@") context,
      )
      refl

-- What a hunk of `n` lines from `a` adds to its file.
abbrev pub range_of : ℕ → ℕ → Option LineRange
range_of a zero = none
range_of a (suc n) = some (record { start = pos a; end = pos (a + n) })

last_line :
    (a n : ℕ)
    → a + suc n < 2 ^ 63
    → wrap_64 (wrap_64 (pos a +ℤ pos (suc n)) +ℤ negsuc 0) ≡ pos (a + n)
last_line a n h =
    let e : a + suc n ≡ a + n + 1 = omega arith in
    ap (λ x. wrap_64 (wrap_64 x +ℤ negsuc 0)) (pos_+ℤ_pos a (suc n) ∙ ap pos e)
    ∙ ap (λ x. wrap_64 (x +ℤ negsuc 0)) (wrap_64_small (a + n + 1) (omega arith))
    ∙ ap wrap_64 (pos_pred (a + n))
    ∙ wrap_64_small (a + n) (omega arith)

range_from-range_of : (a n : ℕ) → a + n < 2 ^ 63 → range_from (pos a) (pos n) ≡ range_of a n
range_from-range_of a zero h = refl
range_from-range_of a (suc n) h = rw (last_line a n h) (ground arith)

count_of-digits :
    (start : ℕ) (count : Option ℕ)
    → start + lines_of count < 2 ^ 63
    → count_of (digits_of count) ≡ some (pos (lines_of count))
count_of-digits start none h = refl
count_of-digits start (some n) h = atoi-itoa n (omega arith)

pub hunk_range-header :
    (old new : Side) (context : Text)
    → new.start + lines_in new < 2 ^ 63
    → hunk_range (hunk_header old new context) ≡ range_of new.start (lines_in new)
unfolding hunk_range
hunk_range-header old new context h =
    rw
      (
        match_hunk-header old new context,
        atoi-itoa new.start (omega arith),
        count_of-digits new.start new.count h,
      )
      (range_from-range_of new.start (lines_in new) h)
