-- ===== src/Protocol/Cursor/Tests.antt =====
-- The theorems at concrete cursors.
use stellar_stellar_rpc.Base.{◌≡◌, ◌↔◌, some, arith, pos, negsuc}
use stellar_stellar_rpc.Protocol.Cursor.{Cursor, cmp_cursor, to_string, parse_cursor, max_cursor}
use stellar_stellar_rpc.Protocol.Cursor.Text.{
  IsPrintable, compare_bytes, parse_cursor-to_string, compare_bytes-to_string,
}
use stellar_stellar_rpc.Protocol.Cursor.Packing.{sdk}
use stellar_stellar_rpc.Protocol.Cursor.Order.{Precedes, cmp_cursor_lem}

abbrev event : Cursor
event = record { ledger = 1000; tx = 2; op = 1; event = 7 }

event-IsPrintable : IsPrintable event
event-IsPrintable = omega arith

max_cursor-IsPrintable : IsPrintable max_cursor
max_cursor-IsPrintable = omega arith

parse_cursor-to_string_example : parse_cursor sdk (to_string sdk event) ≡ some event
parse_cursor-to_string_example = parse_cursor-to_string sdk event event-IsPrintable

compare_bytes-to_string_example :
    compare_bytes (to_string sdk event) (to_string sdk max_cursor) ≡ cmp_cursor event max_cursor
compare_bytes-to_string_example =
    compare_bytes-to_string sdk event max_cursor event-IsPrintable max_cursor-IsPrintable

cmp_cursor_lem_example :
    ((cmp_cursor event max_cursor ≡ negsuc 0) ↔ Precedes event max_cursor)
    × ((cmp_cursor event max_cursor ≡ pos 1) ↔ Precedes max_cursor event)
    × ((cmp_cursor event max_cursor ≡ pos 0) ↔ (event ≡ max_cursor))
cmp_cursor_lem_example = cmp_cursor_lem event max_cursor
