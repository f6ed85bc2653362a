-- ===== src/Operand/Enums/Date.antt =====
-- The enums of dates (linux-cec/src/operand.rs), with their discriminants from
-- linux-cec-sys/src/constants.rs.
use linux_cec.Prelude.{ℕ, refl, [], ◌∷◌, arith}
use linux_cec.Operand.Primitive.{Primitive, IsEnum, try_from_primitive}

pub data DayOfMonth : Type 0 where
  day1 day2 day3 day4 day5 day6 day7 day8 day9 day10 day11 day12 day13 day14 day15 : DayOfMonth
  day16 day17 day18 day19 day20 day21 day22 day23 day24 day25 day26 day27 day28 : DayOfMonth
  day29 day30 day31 : DayOfMonth

abbrev pub day_of_month_discriminant : DayOfMonth → ℕ
day_of_month_discriminant day1 = 0x01
day_of_month_discriminant day2 = 0x02
day_of_month_discriminant day3 = 0x03
day_of_month_discriminant day4 = 0x04
day_of_month_discriminant day5 = 0x05
day_of_month_discriminant day6 = 0x06
day_of_month_discriminant day7 = 0x07
day_of_month_discriminant day8 = 0x08
day_of_month_discriminant day9 = 0x09
day_of_month_discriminant day10 = 0x0a
day_of_month_discriminant day11 = 0x0b
day_of_month_discriminant day12 = 0x0c
day_of_month_discriminant day13 = 0x0d
day_of_month_discriminant day14 = 0x0e
day_of_month_discriminant day15 = 0x0f
day_of_month_discriminant day16 = 0x10
day_of_month_discriminant day17 = 0x11
day_of_month_discriminant day18 = 0x12
day_of_month_discriminant day19 = 0x13
day_of_month_discriminant day20 = 0x14
day_of_month_discriminant day21 = 0x15
day_of_month_discriminant day22 = 0x16
day_of_month_discriminant day23 = 0x17
day_of_month_discriminant day24 = 0x18
day_of_month_discriminant day25 = 0x19
day_of_month_discriminant day26 = 0x1a
day_of_month_discriminant day27 = 0x1b
day_of_month_discriminant day28 = 0x1c
day_of_month_discriminant day29 = 0x1d
day_of_month_discriminant day30 = 0x1e
day_of_month_discriminant day31 = 0x1f

abbrev pub day_of_month : Primitive DayOfMonth
day_of_month = record {
  name = "DayOfMonth";
  variants =
      day1 ∷ day2 ∷ day3 ∷ day4 ∷ day5 ∷ day6 ∷ day7 ∷ day8 ∷ day9 ∷ day10 ∷ day11 ∷ day12 ∷ day13
      ∷ day14 ∷ day15 ∷ day16 ∷ day17 ∷ day18 ∷ day19 ∷ day20 ∷ day21 ∷ day22 ∷ day23 ∷ day24
      ∷ day25 ∷ day26 ∷ day27 ∷ day28 ∷ day29 ∷ day30 ∷ day31 ∷ [];
  discriminant = day_of_month_discriminant;
}

pub day_of_month-IsEnum : IsEnum day_of_month
unfolding try_from_primitive
day_of_month-IsEnum = record {
  discriminant-lt = elim [ day1 ↦ omega arith | _ ↦ omega arith ];
  try_from-discriminant = elim [ day1 ↦ refl | _ ↦ refl ];
}

pub data MonthOfYear : Type 0 where
  january february march april may june july august september october november : MonthOfYear
  december : MonthOfYear

abbrev pub month_of_year_discriminant : MonthOfYear → ℕ
month_of_year_discriminant january = 0x01
month_of_year_discriminant february = 0x02
month_of_year_discriminant march = 0x03
month_of_year_discriminant april = 0x04
month_of_year_discriminant may = 0x05
month_of_year_discriminant june = 0x06
month_of_year_discriminant july = 0x07
month_of_year_discriminant august = 0x08
month_of_year_discriminant september = 0x09
month_of_year_discriminant october = 0x0a
month_of_year_discriminant november = 0x0b
month_of_year_discriminant december = 0x0c

abbrev pub month_of_year : Primitive MonthOfYear
month_of_year = record {
  name = "MonthOfYear";
  variants =
      january ∷ february ∷ march ∷ april ∷ may ∷ june ∷ july ∷ august ∷ september ∷ october
      ∷ november ∷ december ∷ [];
  discriminant = month_of_year_discriminant;
}

pub month_of_year-IsEnum : IsEnum month_of_year
unfolding try_from_primitive
month_of_year-IsEnum = record {
  discriminant-lt = elim [ january ↦ omega arith | _ ↦ omega arith ];
  try_from-discriminant = elim [ january ↦ refl | _ ↦ refl ];
}
