-- ===== src/Sysstats/Adapters.antt =====
-- core/win_sysstats.c: the counters of the network adapters. The table of GetIfTable2 and the
-- conversion of UTF-16 by WideCharToMultiByte are parameters.
use libhwsense.Prelude.{ℕ, Bool, ◌||◌, Option, none, some, List, [], ◌∷◌, ◌++◌, ◌==◌, if◌then◌else◌}
use libhwsense.Prelude.Int.{ℤ}
use libhwsense.Slots.Chosen.{collect}
use libhwsense.Text.{Bytes, codes}
use libhwsense.Sysfs.{decimal}
use libhwsense.Sysstats.{signed64}

-- the fields of MIB_IF_ROW2 that are read
pub record Row : Type 0 where
  pub alias : List ℕ
  pub description : List ℕ
  pub interface_index : ℕ
  pub type : ℕ
  pub filter_interface : Bool
  pub in_octets : ℕ
  pub out_octets : ℕ
  pub in_errors : ℕ
  pub out_errors : ℕ
  pub receive_link_speed : ℕ
  pub is_up : Bool

pub record NetIo : Type 0 where
  pub name : Bytes
  pub rx_bytes : ℤ
  pub tx_bytes : ℤ
  pub rx_errors : ℤ
  pub tx_errors : ℤ
  pub link_speed_bps : ℤ
  pub up : Bool

-- IF_TYPE_SOFTWARE_LOOPBACK
abbrev pub loopback : ℕ
loopback = 24

-- the two tests with `continue`
unfoldable pub is_skipped : Row → Bool
is_skipped row = row.type == loopback || row.filter_interface

abbrev or_numbered : ℕ → Bytes → Bytes
or_numbered index [] = codes "adapter" ++ decimal index
or_numbered index (c ∷ text) = c ∷ text

abbrev alias_or : List ℕ → List ℕ → List ℕ
alias_or [] description = description
alias_or (c ∷ alias) description = c ∷ alias

module _ (to_utf8 : List ℕ → Bytes) where
  unfoldable pub net_row_name : Row → Bytes
  net_row_name row = or_numbered row.interface_index (to_utf8 (alias_or row.alias row.description))

  unfoldable pub net_io_of : Row → NetIo
  net_io_of row = record {
    name = net_row_name row;
    rx_bytes = signed64 row.in_octets;
    tx_bytes = signed64 row.out_octets;
    rx_errors = signed64 row.in_errors;
    tx_errors = signed64 row.out_errors;
    link_speed_bps = signed64 row.receive_link_speed;
    up = row.is_up;
  }

  unfoldable pub kept_row : Row → Option NetIo
  kept_row row = if is_skipped row then none else some (net_io_of row)

  -- `none` is a null table or an error of the system; `max_nets` is 0 also for a null array.
  unfoldable pub get_net_io : Option (List Row) → ℕ → List NetIo
  get_net_io none max_nets = []
  get_net_io (some rows) max_nets = collect kept_row rows max_nets
