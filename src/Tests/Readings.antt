-- ===== src/Tests/Readings.antt =====
-- The unit tests of reading.rs and state.rs in aquilo-core.
use aquilo_offline.Core.Reading.{all_integers, non_empty, split}
use aquilo_offline.Base.{
  ◌≡◌, refl, pos, F64, tenths, Option, none, some, List, [], ◌∷◌, Bytes, codes, bytes_eq,
}
use aquilo_offline.Base.Decimal.{parse_i64}
use aquilo_offline.Core.Reading.{
  RawFrame, Reading, ReadPayload, ParseError, ok, err, parse_frame, parse_reading, parse_raw,
}
use aquilo_offline.Examples.Toy.{hundredths}
use aquilo_offline.Tests.Values.{decoder}

-- The captured payload, and the fields that it has.
abbrev captured : Bytes
captured =
    codes
      "{\"salt\":\"abc\",\"raw\":\"_e23_ae5058_1502_3770_59_0_73044_72976_1_2_1_0_0_0\",\"v\":\"e23\",\"sensor\":\"ae5058\",\"read1\":15020,\"battery\":\"3770\",\"crc\":true,\"amp1\":59,\"temp\":0,\"readNo\":73044,\"lastSent\":72976,\"rev\":1,\"r\":2,\"rssi\":-75,\"wifi\":-80,\"snr\":5}"

abbrev captured_fields : ReadPayload
captured_fields = record {
  sensor = some (codes "ae5058");
  version = some (codes "e23");
  read1 = some (pos 15020);
  battery = some (codes "3770");
  read_no = some (pos 73044);
  last_sent = some (pos 72976);
  amp1 = some (pos 59);
  temp = some (pos 0);
  raw = some (codes "_e23_ae5058_1502_3770_59_0_73044_72976_1_2_1_0_0_0");
}

abbrev pub no_fields : ReadPayload
no_fields = record {
  sensor = none;
  version = none;
  read1 = none;
  battery = none;
  read_no = none;
  last_sent = none;
  amp1 = none;
  temp = none;
  raw = none;
}

abbrev raw_only : Bytes
raw_only = codes "{\"raw\":\"_e23_ae5058_1528_3770_59_0_73045_72976_1\"}"

abbrev without_level : Bytes
without_level = codes "{\"sensor\":\"ae5058\",\"battery\":\"3770\"}"

abbrev known : List (Bytes × ReadPayload)
known =
    (captured, captured_fields)
    ∷ (raw_only, record no_fields { raw = some (codes "_e23_ae5058_1528_3770_59_0_73045_72976_1") })
    ∷ (
      without_level,
      record no_fields { sensor = some (codes "ae5058"); battery = some (codes "3770") },
    )
    ∷ []

abbrev DecodesTheRawStringPositionally : Type 0
DecodesTheRawStringPositionally =
    parse_frame (codes "_e23_ae5058_1502_3770_59_0_73044_72976_1_2_1_0_0_0")
    ≡ ok (record {
      version = codes "e23";
      sensor = codes "ae5058";
      level_mm = pos 1502;
      battery_mv = pos 3770;
      amp = pos 59;
      temp = pos 0;
      read_no = pos 73044;
      last_sent = pos 72976;
      rest = pos 1 ∷ pos 2 ∷ pos 1 ∷ pos 0 ∷ pos 0 ∷ pos 0 ∷ [];
    })

abbrev RejectsShortRawString : Type 0
RejectsShortRawString = (e : ParseError) × (parse_frame (codes "_e23_ae5058_1502") ≡ err e)

module _ {R : Type 0} (F : F64 R) (decode : Bytes → Option ReadPayload) where
  abbrev ParsesCapturedReadIntoStructuredReading : Type 0
  ParsesCapturedReadIntoStructuredReading =
      (r : Reading R) × (parse_reading F decode captured ≡ ok r)
      × (r.sensor ≡ codes "ae5058")
      × (r.version ≡ some (codes "e23"))
      × (r.level_cm ≡ tenths F (pos 1502))
      × (r.battery_mv ≡ pos 3770)
      × (r.read_no ≡ some (pos 73044))
      × (r.last_sent ≡ some (pos 72976))
      × (r.amp1 ≡ some (pos 59))
      × (r.temp ≡ some (pos 0))

  abbrev RawLevelAndJsonRead1Agree : Type 0
  RawLevelAndJsonRead1Agree =
      (r : Reading R) × (frame : RawFrame) × (parse_reading F decode captured ≡ ok r)
      × (r.raw ≡ some frame)
      × (r.level_cm ≡ tenths F frame.level_mm)

  abbrev FallsBackToRawWhenJsonFieldsMissing : Type 0
  FallsBackToRawWhenJsonFieldsMissing =
      (r : Reading R) × (parse_reading F decode raw_only ≡ ok r)
      × (r.sensor ≡ codes "ae5058")
      × (r.level_cm ≡ tenths F (pos 1528))
      × (r.battery_mv ≡ pos 3770)
      × (r.read_no ≡ some (pos 73045))

  abbrev RejectsPayloadWithoutLevel : Type 0
  RejectsPayloadWithoutLevel = (e : ParseError) × (parse_reading F decode without_level ≡ err e)

decodes_the_raw_string_positionally : DecodesTheRawStringPositionally
unfolding parse_frame non_empty split parse_i64 all_integers
decodes_the_raw_string_positionally = refl

rejects_short_raw_string : RejectsShortRawString
unfolding parse_frame non_empty split
rejects_short_raw_string = (_, refl)

parses_captured_read_into_structured_reading :
    ParsesCapturedReadIntoStructuredReading hundredths (decoder known)
unfolding parse_reading bytes_eq parse_raw parse_frame non_empty split parse_i64 all_integers
parses_captured_read_into_structured_reading =
    (_, refl, refl, refl, refl, refl, refl, refl, refl, refl)

raw_level_and_json_read1_agree : RawLevelAndJsonRead1Agree hundredths (decoder known)
unfolding parse_reading bytes_eq parse_raw parse_frame non_empty split parse_i64 all_integers
raw_level_and_json_read1_agree = (_, _, refl, refl, refl)

falls_back_to_raw_when_json_fields_missing :
    FallsBackToRawWhenJsonFieldsMissing hundredths (decoder known)
unfolding parse_reading bytes_eq parse_raw parse_frame non_empty split parse_i64 all_integers
falls_back_to_raw_when_json_fields_missing = (_, refl, refl, refl, refl, refl)

rejects_payload_without_level : RejectsPayloadWithoutLevel hundredths (decoder known)
unfolding parse_reading bytes_eq parse_raw
rejects_payload_without_level = (_, refl)
