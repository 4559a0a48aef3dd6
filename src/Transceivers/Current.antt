-- ===== src/Transceivers/Current.antt =====
-- The modules of a device after its transceivers are stored.
use zas.Prelude.{
  ℕ, ◌≡◌, refl, true, false, not, ◌&&◌, ◌||◌, List, ◌∷◌, arith, All, All-map, ◌==◌, ok,
  All-select-not, select-le_one,
}
use zas.Text.{Text, codes, starts_with, is_one_of}
use zas.Serial.{DeviceModule, Inventory}
use zas.Transceivers.{Transceiver}
use zas.Transceivers.Apply.{
  named, seen_names, is_unseen, remove_unseen, then_remove, apply_transceivers,
}
use zas.Transceivers.Once.{NamesOnce, store_transceivers_total}

-- a module of the device that has a transceiver's name is one that the output names
abbrev pub IsSeen : ℕ → List Text → DeviceModule → Type 0
IsSeen device names r =
    (not (r.device == device && starts_with r.name (codes "Transceiver "))
      || is_one_of r.name names)
    ≡ true

seen_lem :
    (device : ℕ) (names : List Text) (r : DeviceModule)
    → is_unseen device names r ≡ false
    → IsSeen device names r
unfolding is_unseen
seen_lem device names r h = ground arith

remove_unseen_lem :
    (device : ℕ) (n : Text) (names : List Text) (inv : Inventory)
    → All (IsSeen device (n ∷ names)) (remove_unseen device (n ∷ names) inv).modules
unfolding remove_unseen
remove_unseen_lem device n names inv =
    All-map _ _ (seen_lem device (n ∷ names)) _
      (All-select-not (is_unseen device (n ∷ names)) inv.modules)

remove_unseen-NamesOnce :
    (device : ℕ) (n : Text) (names : List Text) (inv : Inventory)
    → NamesOnce device inv
    → NamesOnce device (remove_unseen device (n ∷ names) inv)
unfolding remove_unseen
remove_unseen-NamesOnce device n names inv once m =
    select-le_one (named device m) (λ r. not (is_unseen device (n ∷ names) r)) inv.modules (once m)

-- Where no two modules of the device have one name and the output names a transceiver, storing the
-- transceivers returns; after it no two modules of the device have one name, and each module of the
-- device whose name is that of a transceiver is one that the output names.
pub apply_transceivers_total :
    (id device : ℕ) (entries : List Transceiver) (n : Text) (names : List Text) (inv : Inventory)
    → NamesOnce device inv
    → seen_names entries ≡ n ∷ names
    → (inv' : Inventory) × (apply_transceivers id device entries inv ≡ ok inv')
      × NamesOnce device inv'
      × All (IsSeen device (n ∷ names)) inv'.modules
unfolding apply_transceivers then_remove
apply_transceivers_total id device entries n names inv once seen =
    let (between, stored, kept) = store_transceivers_total id device entries inv once in
    (
      remove_unseen device (n ∷ names) between,
      rw (seen, stored) refl,
      remove_unseen-NamesOnce device n names between kept,
      remove_unseen_lem device n names between,
    )
