-- ===== src/DeviceSync/Version.antt =====
-- What the output of the version says of a device: SyncService._apply_version and
-- _is_aci_leaf_spine (network/services/sync_service.py). Times count seconds from the earliest that a
-- datetime holds.
use zas.Prelude.{
  ℕ, ◌-◌, Bool, ◌&&◌, ◌||◌, Option, none, some, [], ◌∷◌, ltb, if◌then◌else◌, is_empty, not, or_else,
  Result, ok, err,
}
use zas.Text.{Text, codes, lower, contains}
use zas.Serial.{normalize_serial_number}
use zas.Dcim.{Device, RuntimeStatus}
use zas.DeviceSync.Uptime.{parse_uptime, uptime_from_parts, extract_uptime_line}
use zas.DeviceSync.Output.{VersionEntry, serial_text, parse_serial_from_text, parse_image_from_text}

pub data SyncError : Type 0 where
  time_overflow : SyncError
  several_modules : SyncError
  interface_error : SyncError

-- The output of the version command: the text, the first entry that its template yields, and the one
-- that the template of ACI switches yields.
pub record VersionOutput : Type 0 where
  pub raw : Text
  pub parsed : Option VersionEntry
  pub aci : Option VersionEntry

unfoldable pub is_aci_leaf_spine : Text → Bool
is_aci_leaf_spine name =
    contains (codes "leaf") (lower name) || contains (codes "spine") (lower name)

-- the entry that is read
unfoldable pub version_entry : Text → VersionOutput → Option VersionEntry
unfolding is_aci_leaf_spine
version_entry name out =
    if is_aci_leaf_spine name && not (is_empty out.raw)
    then elim out.aci [ none ↦ out.parsed | some e ↦ some e ]
    else out.parsed

unfoldable pub or_amount : Option ℕ → Option ℕ → Option ℕ
or_amount none b = b
or_amount (some a) b = some a

unfoldable pub entry_uptime : Option VersionEntry → Option ℕ
unfolding or_amount
entry_uptime none = none
entry_uptime (some e) =
    or_amount (parse_uptime (or_else e.uptime [])) (uptime_from_parts e.uptime_parts)

-- `uptime_seconds`
unfoldable pub reported_uptime : Text → VersionOutput → Option ℕ
unfolding version_entry entry_uptime or_amount
reported_uptime name out =
    or_amount (entry_uptime (version_entry name out)) (parse_uptime (extract_uptime_line out.raw))

or_empty : Text → Text → Text
or_empty [] b = b
or_empty (c ∷ s) b = c ∷ s

entry_serial : Option VersionEntry → Text
entry_serial none = []
entry_serial (some e) = serial_text e.serial e.serial_number

entry_image : Option VersionEntry → Text
unfolding or_empty
entry_image none = []
entry_image (some e) =
    or_empty (or_else e.version []) (or_empty (or_else e.running_image []) (or_else e.os []))

-- `serial` and `image`, where the raw text is searched if the entry has none
unfoldable pub reported_serial : Text → VersionOutput → Option Text
unfolding or_empty entry_serial version_entry
reported_serial name out =
    normalize_serial_number
      (some (or_empty (entry_serial (version_entry name out)) (parse_serial_from_text out.raw)))

unfoldable pub reported_image : Text → VersionOutput → Text
unfolding or_empty entry_image version_entry
reported_image name out =
    or_empty (entry_image (version_entry name out)) (parse_image_from_text out.raw)

unfoldable pub with_serial : Option Text → Device → Device
with_serial none dev = dev
with_serial (some serial) dev = record dev { serial_number = some serial }

unfoldable pub with_image : Text → Device → Device
with_image [] dev = dev
with_image (c ∷ s) dev = record dev { image_version = some (c ∷ s) }

unfoldable pub with_uptime :
    ℕ → Option ℕ → Device → RuntimeStatus → Result SyncError (Device × RuntimeStatus)
with_uptime now none dev runtime = ok (dev, runtime)
with_uptime now (some uptime) dev runtime =
    if ltb now uptime
    then err time_overflow
    else ok (
      record dev { uptime = some uptime; last_reboot = some (now - uptime) },
      record runtime { uptime = some uptime },
    )

-- _apply_version: the device object and the runtime object, which are then saved
unfoldable pub apply_version :
    ℕ → VersionOutput → Device → RuntimeStatus → Result SyncError (Device × RuntimeStatus)
unfolding with_serial with_image with_uptime reported_serial reported_image reported_uptime
apply_version now out dev runtime =
    with_uptime now (reported_uptime dev.name out)
      (with_image (reported_image dev.name out)
        (with_serial (reported_serial dev.name out) (record dev { last_seen = some now })))
      runtime
