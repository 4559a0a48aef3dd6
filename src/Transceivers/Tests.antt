-- ===== src/Transceivers/Tests.antt =====
-- Tests of the transceivers of a device, and the theorem on them at a concrete table.
use zas.Prelude.{
  ◌≡◌, refl, sym, ◌∙◌, Bool-cases, inl, inr, true, false, none, some, List, [], ◌∷◌, arith, All, ok,
}
use zas.Text.{
  Text, codes, text_eq, text_eq_iff, lower, upper, strip, starts_with, contains, iexact, is_one_of,
  ends_with, join, get,
}
use zas.Serial.{
  DeviceModule, Inventory, normalize_serial_number, serial_matches, save_module, has_valid_serial,
}
use zas.Sync.{foreign, reconcile}
use zas.Transceivers.{
  ParsedEntry, str, flag, Transceiver, looks_like_interface, transceiver_entries,
}
use zas.Transceivers.Apply.{named, seen_names, apply_transceivers}
use zas.Transceivers.Once.{NamesOnce}
use zas.Transceivers.Current.{IsSeen, apply_transceivers_total}

-- a filled cage, an empty one and one without a serial
abbrev parsed : List ParsedEntry
parsed =
    ((codes "name", str (codes "Ethernet1/1"))
      ∷ (codes "type", str (codes "10Gbase-SR"))
      ∷ (codes "pn", str (codes "SFP-10G-SR"))
      ∷ (codes "sn", str (codes " AVD1 "))
      ∷ [])
    ∷ ((codes "interface", str (codes "Ethernet1/2"))
        ∷ (codes "status", str (codes "Not present"))
        ∷ (codes "sn", str (codes "AVD2"))
        ∷ [])
    ∷ ((codes "port", str (codes "Ethernet1/3"))
        ∷ (codes "present", flag true)
        ∷ (codes "serial", str (codes "N/A"))
        ∷ [])
    ∷ []

abbrev optic : Transceiver
optic = record {
  name = codes "Transceiver Ethernet1/1";
  description = some (codes "10Gbase-SR / Ethernet1/1 / PN SFP-10G-SR");
  serial = some (codes "AVD1");
}

parsed_test : transceiver_entries parsed [] ≡ optic ∷ []
unfolding transceiver_entries normalize_serial_number lower upper strip starts_with contains text_eq
    is_one_of ends_with join get has_valid_serial looks_like_interface
parsed_test = refl

abbrev optic_row : DeviceModule
optic_row = record {
  id = 1;
  device = 5;
  name = codes "Transceiver Ethernet1/1";
  inventory_number = some (codes "A7");
  description = none;
  vendor = some 2;
  serial_number = some (codes "OLD");
}

-- a cage that the output no longer names
abbrev gone_row : DeviceModule
gone_row = record optic_row { id = 2; name = codes "Transceiver Ethernet1/9" }

-- the same part, still listed at another device
abbrev moved_row : DeviceModule
moved_row = record optic_row { id = 3; device = 6; serial_number = some (codes "avd1") }

abbrev inventory : Inventory
inventory = record { modules = optic_row ∷ gone_row ∷ moved_row ∷ []; items = [] }

applied_test :
    apply_transceivers 50 5 (optic ∷ []) inventory
    ≡ ok (record {
      modules =
          record optic_row {
            description = optic.description;
            vendor = none;
            serial_number = some (codes "AVD1");
          }
          ∷ [];
      items = [];
    })
unfolding apply_transceivers foreign reconcile serial_matches save_module normalize_serial_number
    lower upper strip starts_with contains text_eq is_one_of iexact
applied_test = refl

two_names : text_eq optic_row.name gone_row.name ≡ false
unfolding text_eq
two_names = refl

true-ne-false : ¬ (true ≡ false)
true-ne-false h = cc h

not_both : (n : Text) → text_eq optic_row.name n ≡ true → text_eq gone_row.name n ≡ true → ⊥
not_both n e k =
    let same : n ≡ gone_row.name = sym ((text_eq_iff gone_row.name n).0 k) in
    let e' : text_eq optic_row.name gone_row.name ≡ true = rw (← same) e in
    true-ne-false (sym e' ∙ two_names)

seen : seen_names (optic ∷ []) ≡ optic.name ∷ []
unfolding seen_names
seen = refl

names_once : NamesOnce 5 inventory
unfolding named
names_once n = elim (Bool-cases (text_eq optic_row.name n)) [
  | inl e ↦ elim (Bool-cases (text_eq gone_row.name n)) [
    | inl k ↦ absurd (not_both n e k)
    | inr k ↦ rw (e, k) (omega arith)
  ]
  | inr e ↦ elim (Bool-cases (text_eq gone_row.name n)) [
    | inl k ↦ rw (e, k) (omega arith)
    | inr k ↦ rw (e, k) (omega arith)
  ]
]

apply_transceivers_total_example :
    (inv' : Inventory) × (apply_transceivers 50 5 (optic ∷ []) inventory ≡ ok inv')
    × NamesOnce 5 inv'
    × All (IsSeen 5 (optic.name ∷ [])) inv'.modules
apply_transceivers_total_example =
    apply_transceivers_total 50 5 (optic ∷ []) optic.name [] inventory names_once seen
