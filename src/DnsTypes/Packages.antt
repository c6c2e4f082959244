-- ===== src/DnsTypes/Packages.antt =====
-- arataga/dns_resolver/dns_types.hpp: the headers, the questions and the resource records of DNS
-- packages.
--
-- The flags of a header are a 16-bit word, taken apart by division. The text of an address is kept
-- as the numbers that it is formatted from.
use arataga.Prelude.{
  ℕ, ◌+◌, ◌-◌, ◌/◌, ◌%◌, Bool, true, false, Option, none, some, List, ◌++◌, ◌==◌, if◌then◌else◌,
}
use arataga.Prelude.Eq.{Bytes}
use arataga.DnsTypes.{
  BinaryIo, loaded, failed, out_of_fuel, read_from_memory_buffer, read_from_stream,
}

pub record DnsHeader : Type 0 where
  pub id : ℕ
  pub flags : ℕ
  pub qdcount : ℕ
  pub ancount : ℕ
  pub nscount : ℕ
  pub arcount : ℕ

-- `flags & bit`, for a power of two.
abbrev pub has_flag : ℕ → ℕ → Bool
has_flag flags bit = flags / bit % 2 == 1

-- `val ? flags |= bit : flags &= ~bit`
abbrev pub with_flag : Bool → ℕ → ℕ → ℕ
with_flag val flags bit =
    if has_flag flags bit
    then (if val then flags else flags - bit)
    else (if val then flags + bit else flags)

unfoldable pub set_qr : Bool → DnsHeader → DnsHeader
set_qr is_response h = record h { flags = with_flag is_response h.flags 32768 }

unfoldable pub set_rd : Bool → DnsHeader → DnsHeader
set_rd val h = record h { flags = with_flag val h.flags 256 }

abbrev pub is_response : DnsHeader → Bool
is_response h = has_flag h.flags 32768

abbrev pub rd : DnsHeader → Bool
rd h = has_flag h.flags 256

abbrev pub rcode : DnsHeader → ℕ
rcode h = h.flags % 16

-- The constructor from an ID.
unfoldable pub make_header : ℕ → Bool → DnsHeader
unfolding set_rd
make_header id recursive =
    set_rd recursive
      (record { id = id; flags = 0; qdcount = 0; ancount = 0; nscount = 0; arcount = 0 })

abbrev pub qtype_a : ℕ
qtype_a = 1

abbrev pub qtype_aaaa : ℕ
qtype_aaaa = 28

abbrev pub qtype_opt : ℕ
qtype_opt = 41

abbrev pub qclass_in : ℕ
qclass_in = 1

-- The name as it stands in a package.
pub record DnsQuestion : Type 0 where
  pub qname : Bytes
  pub qtype : ℕ
  pub qclass : ℕ

pub data ResourceData : Type 0 where
  no_data : ResourceData
  type_a : Bytes → ResourceData
  type_aaaa : List ℕ → ResourceData

pub record DnsResourceRecord : Type 0 where
  pub name : Bytes
  pub record_type : ℕ
  pub record_class : ℕ
  pub ttl : ℕ
  pub resource_data : ResourceData

module _ {S : Type 0} (io : BinaryIo S) where
  unfoldable pub write_header : DnsHeader → Bytes
  write_header h =
      io.write_ushort h.id
      ++ (io.write_ushort h.flags
          ++ (io.write_ushort h.qdcount
              ++ (io.write_ushort h.ancount
                  ++ (io.write_ushort h.nscount ++ io.write_ushort h.arcount))))

  unfoldable pub read_header : S → Option (DnsHeader × S)
  read_header s = elim (io.read_ushort s) [
    | none ↦ none
    | some (id, s1) ↦ elim (io.read_ushort s1) [
      | none ↦ none
      | some (flags, s2) ↦ elim (io.read_ushort s2) [
        | none ↦ none
        | some (qdcount, s3) ↦ elim (io.read_ushort s3) [
          | none ↦ none
          | some (ancount, s4) ↦ elim (io.read_ushort s4) [
            | none ↦ none
            | some (nscount, s5) ↦ elim (io.read_ushort s5) [
              | none ↦ none
              | some (arcount, s6) ↦ some (
                record {
                  id = id;
                  flags = flags;
                  qdcount = qdcount;
                  ancount = ancount;
                  nscount = nscount;
                  arcount = arcount;
                },
                s6,
              )
            ]
          ]
        ]
      ]
    ]
  ]

  unfoldable pub write_question : DnsQuestion → Bytes
  write_question q = q.qname ++ (io.write_ushort q.qtype ++ io.write_ushort q.qclass)

  -- The name of a question is read without references.
  unfoldable pub read_question : S → Option (DnsQuestion × S)
  read_question s = elim (read_from_stream io s) [
    | failed ↦ none
    | out_of_fuel ↦ none
    | loaded (name, s1) ↦ elim (io.read_ushort s1) [
      | none ↦ none
      | some (qtype, s2) ↦ elim (io.read_ushort s2) [
        | none ↦ none
        | some (qclass, s3) ↦ some (record { qname = name; qtype = qtype; qclass = qclass }, s3)
      ]
    ]
  ]

  unfoldable pub read_dns_type_a : S → ℕ → Option (ResourceData × S)
  read_dns_type_a from resource_data_length = elim (resource_data_length == 4) [
    | false ↦ none
    | true ↦ elim (io.read 4 from) [ none ↦ none | some (raw_data, s) ↦ some (type_a raw_data, s) ]
  ]

  unfoldable pub read_dns_type_aaaa : S → ℕ → Option (ResourceData × S)
  read_dns_type_aaaa from resource_data_length = elim (resource_data_length == 16) [
    | false ↦ none
    | true ↦ elim (io.read_ushorts 8 from) [
      | none ↦ none
      | some (raw_data, s) ↦ some (type_aaaa raw_data, s)
    ]
  ]

  unfoldable pub just_skip_data : S → ℕ → Option (ResourceData × S)
  just_skip_data from resource_data_size = elim (io.shift_bytes resource_data_size from) [
    | none ↦ none
    | some s ↦ some (no_data, s)
  ]

  unfoldable pub read_resource_data : ℕ → ℕ → S → Option (ResourceData × S)
  unfolding read_dns_type_a read_dns_type_aaaa just_skip_data
  read_resource_data record_type resource_data_length from =
      if record_type == qtype_a
      then read_dns_type_a from resource_data_length
      else if record_type == qtype_aaaa
      then read_dns_type_aaaa from resource_data_length
      else just_skip_data from resource_data_length

  -- What stands behind the type of a record. Of an OPT record nothing more is read.
  unfoldable pub read_record_tail : Bytes → ℕ → S → Option (DnsResourceRecord × S)
  unfolding read_resource_data
  read_record_tail name record_type s = elim (record_type == qtype_opt) [
    | true ↦ some (
      record {
        name = name;
        record_type = record_type;
        record_class = 0;
        ttl = 0;
        resource_data = no_data;
      },
      s,
    )
    | false ↦ elim (io.read_ushort s) [
      | none ↦ none
      | some (record_class, s1) ↦ elim (io.read_uint s1) [
        | none ↦ none
        | some (ttl, s2) ↦ elim (io.read_ushort s2) [
          | none ↦ none
          | some (resource_data_length, s3) ↦
              elim (read_resource_data record_type resource_data_length s3) [
                | none ↦ none
                | some (resource_data, s4) ↦ some (
                  record {
                    name = name;
                    record_type = record_type;
                    record_class = record_class;
                    ttl = ttl;
                    resource_data = resource_data;
                  },
                  s4,
                )
              ]
        ]
      ]
    ]
  ]

  unfoldable pub read_record : Bytes → S → Option (DnsResourceRecord × S)
  read_record all_buffer from = elim (read_from_memory_buffer io all_buffer from) [
    | failed ↦ none
    | out_of_fuel ↦ none
    | loaded (name, s) ↦ elim (io.read_ushort s) [
      | none ↦ none
      | some (record_type, s1) ↦ read_record_tail name record_type s1
    ]
  ]
