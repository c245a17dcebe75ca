-- ===== src/Types/Truncation.antt =====
-- Truncation of a time stamp to minutes, hours and days.
use columnar_engine.Base.{
  Bool-cases, ==_iff, eqb_ℤ, ◌&&◌, Bool, true, quot, subst, ◌==◌, inl, inr, ℕ, zero, suc, ◌+◌, ◌-◌,
  ◌*◌, ◌/◌, ◌%◌, ◌<◌, ◌≡◌, refl, ◌∙◌, if◌then◌else◌, ℤ, pos, negsuc, ◌+ℤ◌, ◌-ℤ◌, ◌*ℤ◌, rem, ltb_ℤ,
  pos_part, neg_part, arith, eq_of_parts, +ℤ_parts, -ℤ_parts, sub_ℕ,
}
use columnar_engine.Types.Dates.{
  truncate_date, civil_from_days, era_of, year_of_era, days_before_year,
}
use columnar_engine.Types.TimeUnits.{month, year, TimeUnitType, day, hour, minute}
use columnar_engine.Types.Timestamps.{seconds_in_day, truncate_timestamp}

seconds_pos : (n : ℕ) → seconds_in_day (pos n) ≡ n % 86400
unfolding seconds_in_day rem
seconds_pos n = ground arith

wrap :
    (r : ℕ)
    → r < 86400
    → pos_part (if ltb_ℤ (sub_ℕ 0 r) (pos 0) then sub_ℕ 0 r +ℤ pos 86400 else sub_ℕ 0 r)
      ≡ (if r == 0 then 0 else 86400 - r)
unfolding ◌+ℤ◌
wrap zero h = refl
wrap (suc r) h = ground arith

complement : (n : ℕ) → (if suc n % 86400 == 0 then 0 else 86400 - suc n % 86400) ≡ 86399 - n % 86400
complement n = ground arith

seconds_negsuc : (n : ℕ) → seconds_in_day (negsuc n) ≡ 86399 - n % 86400
unfolding seconds_in_day rem
seconds_negsuc n = wrap (suc n % 86400) (omega arith) ∙ complement n

sub_ℕ_parts : (a b : ℕ) → pos_part (sub_ℕ a b) + b ≡ neg_part (sub_ℕ a b) + a
sub_ℕ_parts a b = ground arith

*ℤ_parts : (a : ℤ) (k : ℕ) → pos_part (a *ℤ k) + neg_part a * k ≡ neg_part (a *ℤ k) + pos_part a * k
unfolding ◌*ℤ◌
*ℤ_parts a k = sub_ℕ_parts (pos_part a * k) (neg_part a * k)

-- A time stamp is a whole number of days and the seconds in its day.
pub seconds_in_day_lem :
    (t : ℤ)
    → (days : ℤ) × (t ≡ days *ℤ 86400 +ℤ pos (seconds_in_day t)) × (seconds_in_day t < 86400)
seconds_in_day_lem (pos n) = (
  pos (n / 86400),
  eq_of_parts _ _ (
      omega (
        arith,
        +ℤ_parts (pos (n / 86400) *ℤ 86400) (pos (seconds_in_day (pos n))),
        *ℤ_parts (pos (n / 86400)) 86400,
        seconds_pos n,
      )),
  omega (arith, seconds_pos n),
)
seconds_in_day_lem (negsuc n) = (
  negsuc (n / 86400),
  eq_of_parts _ _ (
      omega (
        arith,
        +ℤ_parts (negsuc (n / 86400) *ℤ 86400) (pos (seconds_in_day (negsuc n))),
        *ℤ_parts (negsuc (n / 86400)) 86400,
        seconds_negsuc n,
      )),
  omega (arith, seconds_negsuc n),
)

parts_of_eq : {a b : ℤ} → a ≡ b → pos_part a + neg_part b ≡ pos_part b + neg_part a
parts_of_eq {a} {b} e = subst (λ c. pos_part a + neg_part c ≡ pos_part c + neg_part a) e refl

minus_plus : (t : ℤ) (r : ℕ) → t ≡ (t -ℤ pos r) +ℤ pos r
minus_plus t r = eq_of_parts _ _ (omega (arith, +ℤ_parts (t -ℤ pos r) (pos r), -ℤ_parts t (pos r)))

whole_hours :
    (t days : ℤ) (s : ℕ)
    → t ≡ days *ℤ 86400 +ℤ pos s
    → t -ℤ pos (s % 3600) ≡ (days *ℤ 24 +ℤ pos (s / 3600)) *ℤ 3600
whole_hours t days s e = eq_of_parts _ _ (
    omega (
      arith,
      parts_of_eq e,
      +ℤ_parts (days *ℤ 86400) (pos s),
      *ℤ_parts days 86400,
      -ℤ_parts t (pos (s % 3600)),
      *ℤ_parts (days *ℤ 24 +ℤ pos (s / 3600)) 3600,
      +ℤ_parts (days *ℤ 24) (pos (s / 3600)),
      *ℤ_parts days 24,
    ))

whole_minutes :
    (t days : ℤ) (s : ℕ)
    → t ≡ days *ℤ 86400 +ℤ pos s
    → t -ℤ pos (s % 60) ≡ (days *ℤ 1440 +ℤ pos (s / 60)) *ℤ 60
whole_minutes t days s e = eq_of_parts _ _ (
    omega (
      arith,
      parts_of_eq e,
      +ℤ_parts (days *ℤ 86400) (pos s),
      *ℤ_parts days 86400,
      -ℤ_parts t (pos (s % 60)),
      *ℤ_parts (days *ℤ 1440 +ℤ pos (s / 60)) 60,
      +ℤ_parts (days *ℤ 1440) (pos (s / 60)),
      *ℤ_parts days 1440,
    ))

whole_days : (t days : ℤ) (s : ℕ) → t ≡ days *ℤ 86400 +ℤ pos s → t -ℤ pos s ≡ days *ℤ 86400
whole_days t days s e =
    eq_of_parts _ _
      (omega (arith, parts_of_eq e, +ℤ_parts (days *ℤ 86400) (pos s), -ℤ_parts t (pos s)))

-- A unit of a whole number of seconds that divides a day.
pub data HasSeconds : TimeUnitType → ℕ → Type 0 where
  of_minute : HasSeconds minute 60
  of_hour : HasSeconds hour 3600
  of_day : HasSeconds day 86400

-- Truncation to minutes, hours or days gives the last multiple of the unit up to the time stamp,
-- before 1970 as well as after it.
pub truncate_timestamp_lem :
    (t : ℤ) {unit : TimeUnitType} {seconds : ℕ}
    → HasSeconds unit seconds
    → (count : ℤ) × (rest : ℕ) × (truncate_timestamp t unit ≡ count *ℤ seconds)
      × (t ≡ truncate_timestamp t unit +ℤ pos rest)
      × (rest < seconds)
unfolding truncate_timestamp
truncate_timestamp_lem t of_day =
    let (days, e, small) = seconds_in_day_lem t in
    (
      days,
      seconds_in_day t,
      whole_days t days (seconds_in_day t) e,
      minus_plus t (seconds_in_day t),
      small,
    )
truncate_timestamp_lem t of_hour =
    let (days, e, small) = seconds_in_day_lem t in
    (
      days *ℤ 24 +ℤ pos (seconds_in_day t / 3600),
      seconds_in_day t % 3600,
      whole_hours t days (seconds_in_day t) e,
      minus_plus t (seconds_in_day t % 3600),
      omega arith,
    )
truncate_timestamp_lem t of_minute =
    let (days, e, small) = seconds_in_day_lem t in
    (
      days *ℤ 1440 +ℤ pos (seconds_in_day t / 60),
      seconds_in_day t % 60,
      whole_minutes t days (seconds_in_day t) e,
      minus_plus t (seconds_in_day t % 60),
      omega arith,
    )

truncate_date-epoch : truncate_date (pos 0) month ≡ pos 0
unfolding truncate_date civil_from_days era_of quot year_of_era days_before_year ◌+ℤ◌ ◌-ℤ◌ ◌*ℤ◌
truncate_date-epoch = refl

-- Every time stamp of the last day of 1969, but for its first second, is truncated to a month as
-- 1970-01-01, which is later than the time stamp.
pub truncate_timestamp-last_day : (n : ℕ) → n < 86399 → truncate_timestamp (negsuc n) month ≡ pos 0
unfolding truncate_timestamp quot ◌*ℤ◌
truncate_timestamp-last_day n h =
    let none_whole : suc n / 86400 ≡ 0 = omega arith in rw (none_whole, truncate_date-epoch)

abbrev all_below : ℕ → (ℕ → Bool) → Bool
all_below zero test = true
all_below (suc n) test = test n && all_below n test

all_below_lem :
    (m : ℕ) (test : ℕ → Bool) → all_below m test ≡ true → (n : ℕ) → n < m → test n ≡ true
all_below_lem zero test h n lt = absurd (omega arith)
all_below_lem (suc m) test h n lt = elim (Bool-cases (n == m)) [
  | inl e ↦ let same : n ≡ m = (==_iff n m).0 e in rw same (ground arith)
  | inr e ↦ all_below_lem m test (ground arith) n (ground arith)
]

days_of_1970 : all_below 365 (λ n. eqb_ℤ (truncate_date (pos n) year) (pos 365)) ≡ true
unfolding truncate_date civil_from_days era_of quot year_of_era days_before_year ◌+ℤ◌ ◌-ℤ◌ ◌*ℤ◌
days_of_1970 = refl

-- Every day of 1970 is truncated to a year as 1971-01-01, the first day of the next year.
pub truncate_date-year_1970 : (n : ℕ) → n < 365 → truncate_date (pos n) year ≡ pos 365
truncate_date-year_1970 n h =
    let equal : eqb_ℤ (truncate_date (pos n) year) (pos 365) ≡ true =
      all_below_lem 365 (λ n. eqb_ℤ (truncate_date (pos n) year) (pos 365)) days_of_1970 n h in
    eq_of_parts _ _ ((==_iff _ _).0 equal)
