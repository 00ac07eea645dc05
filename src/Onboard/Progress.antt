-- ===== src/Onboard/Progress.antt =====
-- The operations on the facts of onboard.rs, and how the facts go on.
use aquilo_offline.Base.{
  F64, ◌≡◌, refl, ◌↔◌, arith, true, Option, none, some, [], Bytes, Str, codes, starts_with,
  ends_with, or_else, is_some, Bool-cases, inl, inr,
}
use aquilo_offline.Base.Json.{Json}
use aquilo_offline.Core.Reading.{ReadPayload, Parsed, ok, err, Reading, parse_reading}
use aquilo_offline.Onboard.Facts.{
  Facts, apply_device_connect, is_complete, missing, apply_device_publish, apply_cloud_state,
  apply_cloud_publish, apply_reading, apply_sensor, apply_state_value, apply_radar_value,
}
use aquilo_offline.Onboard.Output.{OnboardOptions, complete_facts, render_config}
use aquilo_offline.Wire.Decode.{Connect}

-- What is known of one fact stays known, with its value.
abbrev pub Stays : {A : Type 0} → Option A → Option A → Type 0
Stays none later = Unit
Stays (some a) later = later ≡ some a

pub record Extends {R : Type 0} (f g : Facts R) : Type 0 where
  pub receiver_id : Stays f.receiver_id g.receiver_id
  pub client_id : Stays f.client_id g.client_id
  pub mqtt_user : Stays f.mqtt_user g.mqtt_user
  pub mqtt_pass : Stays f.mqtt_pass g.mqtt_pass
  pub firmware : Stays f.firmware g.firmware
  pub sensor_id : Stays f.sensor_id g.sensor_id
  pub sensor_name : Stays f.sensor_name g.sensor_name
  pub radar_skip : Stays f.radar_skip g.radar_skip
  pub radar_repeat : Stays f.radar_repeat g.radar_repeat
  pub seed : Stays f.seed g.seed

module _ {A : Type 0} where
  Stays-refl : (o : Option A) → Stays o o
  Stays-refl none = tt
  Stays-refl (some a) = refl

  Stays-or_else : (o d : Option A) → Stays o (or_else o d)
  Stays-or_else none d = tt
  Stays-or_else (some a) d = refl

  Stays-or_else_twice : (o d d' : Option A) → Stays o (or_else (or_else o d) d')
  Stays-or_else_twice none d d' = tt
  Stays-or_else_twice (some a) d d' = refl

  Stays-trans : (o p q : Option A) → Stays o p → Stays p q → Stays o q
  Stays-trans none p q h k = tt
  Stays-trans (some a) p q h k = rw h at k

module _ {R : Type 0} where
  pub Extends-refl : (f : Facts R) → Extends f f
  Extends-refl f = record {
    receiver_id = Stays-refl _;
    client_id = Stays-refl _;
    mqtt_user = Stays-refl _;
    mqtt_pass = Stays-refl _;
    firmware = Stays-refl _;
    sensor_id = Stays-refl _;
    sensor_name = Stays-refl _;
    radar_skip = Stays-refl _;
    radar_repeat = Stays-refl _;
    seed = Stays-refl _;
  }

  pub Extends-trans : {f g h : Facts R} → Extends f g → Extends g h → Extends f h
  Extends-trans a b = ground arith

  -- A fact that is known keeps its value through a CONNECT: the first device is the one recorded.
  -- Afterwards the client id and the receiver id are known.
  pub apply_device_connect-Extends :
      (f : Facts R) (c : Connect)
      → Extends f (apply_device_connect f c)
        × (is_some (apply_device_connect f c).client_id ≡ true)
        × (is_some (apply_device_connect f c).receiver_id ≡ true)
  unfolding apply_device_connect
  apply_device_connect-Extends f c = ground arith

  -- A config can be written exactly when no fact is reported missing.
  pub is_complete_iff : (f : Facts R) → (is_complete f ≡ true) ↔ (missing f ≡ [])
  unfolding is_complete missing
  is_complete_iff f = ground arith

module _ {V R : Type 0} (F : F64 R) (J : Json V R) (decode : Bytes → Option ReadPayload) where
  device_reading-Extends :
      (f : Facts R) (p : Parsed (Reading R)) (now : Str)
      → Extends f (apply_reading F J decode f p now)
  device_reading-Extends f (err e) now = Extends-refl f
  device_reading-Extends f (ok r) now = ground arith

  pub apply_device_publish-Extends :
      (f : Facts R) (topic : Str) (payload : Bytes) (now : Str)
      → Extends f (apply_device_publish F J decode f topic payload now)
  unfolding apply_device_publish
  apply_device_publish-Extends f topic payload now =
      elim (Bool-cases (ends_with topic (codes "/log"))) [
        | inl e ↦ rw e (ground arith)
        | inr e ↦ rw e (elim (Bool-cases (ends_with topic (codes "/read"))) [
          | inl e' ↦ rw e' (device_reading-Extends f (parse_reading F decode payload) now)
          | inr e' ↦ rw e' (Extends-refl f)
        ])
      ]

  cloud_sensor-Extends :
      (f : Facts R) (v : V) (s : Option V) → Extends f (apply_sensor F J decode f v s)
  cloud_sensor-Extends f v none = Extends-refl f
  cloud_sensor-Extends f v (some s) = ground arith

  cloud_state-Extends : (f : Facts R) (v : Option V) → Extends f (apply_state_value F J decode f v)
  cloud_state-Extends f none = Extends-refl f
  cloud_state-Extends f (some v) = cloud_sensor-Extends f v _

  cloud_radar-Extends : (f : Facts R) (v : Option V) → Extends f (apply_radar_value F J decode f v)
  cloud_radar-Extends f none = Extends-refl f
  cloud_radar-Extends f (some v) = ground arith

  -- Nothing that the cloud sends changes a fact that is known: the firmware that the device announced
  -- is not replaced by the cloud's version, nor the device's own reading by the cloud's state.
  pub apply_cloud_publish-Extends :
      (f : Facts R) (topic : Str) (payload : Bytes)
      → Extends f (apply_cloud_publish F J decode f topic payload)
  unfolding apply_cloud_publish apply_cloud_state
  apply_cloud_publish-Extends f topic payload =
      elim (Bool-cases (starts_with topic (codes "/version/"))) [
        | inl e ↦ rw e (ground arith)
        | inr e ↦ rw e (elim (Bool-cases (ends_with topic (codes "/state"))) [
          | inl e' ↦ rw e' (cloud_state-Extends f (J.from_slice payload))
          | inr e' ↦ rw e' (elim (Bool-cases (ends_with topic (codes "/radarParams"))) [
            | inl e'' ↦ rw e'' (cloud_radar-Extends f (J.from_slice payload))
            | inr e'' ↦ rw e'' (Extends-refl f)
          ])
        ])
      ]

-- A config is rendered exactly when no fact is reported missing.
render_config_iff :
    {R : Type 0} (F : F64 R) (f : Facts R) (opts : OnboardOptions)
    → (is_some (render_config F f opts) ≡ true) ↔ (missing f ≡ [])
unfolding render_config complete_facts missing
render_config_iff F f opts = ground arith
