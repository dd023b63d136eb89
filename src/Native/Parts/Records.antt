-- ===== src/Native/Parts/Records.antt =====
-- The records of an answer, in resolvd-core/src/lib.rs.
use resolvd.Prelude.{ℕ, ◌%◌, ◌^◌, List, [], ◌∷◌, ◌++◌, Bytes, bytes, bytes_eq, if◌then◌else◌}
use resolvd.Msgpack.{write_map, write_str, write_bin, write_uint}
use resolvd.Native.Messages.{RecordOut, no_record}
use resolvd.Native.Fields.{Field, for_each_field, Entry, write_fields}
use resolvd.Native.Request.{entry}
use resolvd.Native.Lists.{ReadOne}
use resolvd.Native.Parts.Arms.{text_arm, bin_arm, uint_arm, skip_arm}

abbrev pub record_name : Bytes → RecordOut → RecordOut
record_name v x = record x { name = v }

abbrev pub record_type : ℕ → RecordOut → RecordOut
record_type v x = record x { rtype = v % 2 ^ 16 }

abbrev pub record_ttl : ℕ → RecordOut → RecordOut
record_ttl v x = record x { ttl = v % 2 ^ 32 }

abbrev pub record_data : Bytes → RecordOut → RecordOut
record_data v x = record x { data_wire = v }

abbrev pub record_text : Bytes → RecordOut → RecordOut
record_text v x = record x { text = v }

abbrev pub record_entries : RecordOut → List (Entry RecordOut)
record_entries x =
    entry (bytes "name") (write_str x.name) (record_name x.name)
    ∷ entry (bytes "type") (write_uint x.rtype) (record_type x.rtype)
    ∷ entry (bytes "ttl") (write_uint x.ttl) (record_ttl x.ttl)
    ∷ entry (bytes "data") (write_bin x.data_wire) (record_data x.data_wire)
    ∷ entry (bytes "text") (write_str x.text) (record_text x.text)
    ∷ []

unfoldable pub write_record : RecordOut → Bytes
write_record x = write_map 5 ++ write_fields (record_entries x)

unfoldable pub record_field : Field RecordOut
record_field s key r =
    if bytes_eq key (bytes "name")
    then text_arm record_name s r
    else if bytes_eq key (bytes "type")
    then uint_arm record_type s r
    else if bytes_eq key (bytes "ttl")
    then uint_arm record_ttl s r
    else if bytes_eq key (bytes "data")
    then bin_arm record_data s r
    else if bytes_eq key (bytes "text")
    then text_arm record_text s r
    else skip_arm s r

unfoldable pub record_one : ReadOne RecordOut
unfolding record_field
record_one = for_each_field record_field no_record
