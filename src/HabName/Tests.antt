-- ===== src/HabName/Tests.antt =====
-- Names at concrete values.
use veridian_wallet.Base.{◌≡◌, refl, true, none, some, [], ok, err, arith}
use veridian_wallet.Base.Text.{codes, split, index_of, is_space}
use veridian_wallet.HabName.{
  HabNameParts, NameError, v1_2_0_2, parse_new, parse_old, parse_group_at, parse_hab_name,
  format_to_v1_2_0_2, build_deleted_hab_name, is_blank,
}
use veridian_wallet.HabName.Format.{parse-format, format-parse}
use veridian_wallet.HabName.Upgrade.{parse-format_colon}

names : Unit {0}
unfolding parse_hab_name parse_new parse_old parse_group_at split index_of is_blank
    format_to_v1_2_0_2 build_deleted_hab_name
names = tt

abbrev member : HabNameParts
member = record {
  version = some v1_2_0_2;
  display_name = codes "Ann";
  group_metadata =
      some (record {
        group_initiator = true;
        group_id = codes "g-1";
        proposed_username = codes "ann";
      });
  theme = codes "3";
}

abbrev plain : HabNameParts
plain = record {
  version = none;
  display_name = codes "a:b";
  group_metadata = none;
  theme = codes "0";
}

format_test : format_to_v1_2_0_2 member ≡ codes "1.2.0.2:3:1:g-1:ann:Ann"
unfolding names
format_test = refl

parse_test : parse_hab_name (codes "1.2.0.2:3:1:g-1:ann:Ann") ≡ ok member
unfolding names
parse_test = refl

parse_errors :
    (parse_hab_name (codes "1.2.0.2:3:2:g:ann:Ann") ≡ err NameError.new_initiator)
    × (parse_hab_name (codes "1.2.0.2:3:1: :ann:Ann") ≡ err NameError.new_group_id)
    × (parse_hab_name (codes "Ann") ≡ err NameError.old_part_count)
    × (parse_hab_name (codes "3:") ≡ err NameError.old_missing)
    × (parse_hab_name (codes "3:1g:Ann") ≡ err NameError.old_group_format)
    × (parse_hab_name (codes "3:x-g:Ann") ≡ err NameError.old_initiator)
    × (parse_hab_name (codes "3:1-:Ann") ≡ err NameError.old_group_id)
unfolding names
parse_errors = (refl, refl, refl, refl, refl, refl, refl)

deleted_test :
    build_deleted_hab_name
      (record { display_name = codes "Ann"; group_metadata = none })
      (codes "0A")
    ≡ codes "1.2.0.2:XX-0A:Ann"
unfolding names
deleted_test = refl

parse-format_example :
    parse_hab_name (format_to_v1_2_0_2 member) ≡ ok (record member { version = some v1_2_0_2 })
unfolding is_space
parse-format_example = parse-format member (ground arith)

format-parse_example : format_to_v1_2_0_2 member ≡ codes "1.2.0.2:3:1:g-1:ann:Ann"
format-parse_example = format-parse (codes "1.2.0.2:3:1:g-1:ann:Ann") member refl parse_test

abbrev old_member : HabNameParts
old_member = record {
  version = none;
  display_name = codes "Ann";
  group_metadata =
      some (record { group_initiator = true; group_id = codes "g-1"; proposed_username = [] });
  theme = codes "3";
}

old_test : parse_hab_name (codes "3:1-g-1:Ann") ≡ ok old_member
unfolding names
old_test = refl

parse-format_colon_example :
    parse_hab_name (format_to_v1_2_0_2 plain) ≡ err NameError.new_part_count
parse-format_colon_example =
    parse-format_colon plain (codes "a") (codes "b") refl (ground arith) refl (ground arith)
      (ground arith)
