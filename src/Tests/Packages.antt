-- ===== src/Tests/Packages.antt =====
-- DNS packages and the nameservers' agent at concrete inputs, with streams of bytes in the order of
-- the network.
use arataga.Prelude.{
  ℕ, zero, suc, ◌+◌, ◌*◌, ◌/◌, ◌%◌, ◌≤◌, ◌≡◌, ◌≢◌, refl, ap, ◌∙◌, Option, none, some, List, [], ◌∷◌,
  ◌++◌, arith, length, map, replicate,
}
use arataga.Prelude.Eq.{Bytes}
use arataga.Prelude.Map.{lookup}
use arataga.Prelude.Keys.{Unique}
use arataga.DnsConductor.{ip_v4}
use arataga.DnsTypes.{
  BinaryIo, IsBinaryIo, loaded, failed, out_of_fuel, translate, translated, dump_to,
  read_from_memory_buffer, read_from_stream, without_ending_dot, take_label, translate_labels,
  load_size_byte, load_next_label, at_reference, read_from_memory_buffer_impl,
}
use arataga.DnsTypes.Termination.{read_from_memory_buffer-ends, read_from_stream-ends}
use arataga.DnsTypes.Translate.{encode, closed}
use arataga.DnsTypes.RoundTrip.{translated_name_read_back, longest_name_unreadable}
use arataga.DnsTypes.Packages.{
  DnsHeader, ResourceData, no_data, type_a, type_aaaa, read_header, read_question, read_record,
}
use arataga.Prelude.Sorted.{filter}
use arataga.NameserverInteractor.{
  Interactor, OngoingReqId, OngoingReqData, LookupRequest, form_and_send_dns_udp_package,
  make_interactor, parse_response, evt_updated_dns_params, evt_one_second_timer, ongoing_req_id_eq,
  read_questions, read_answers,
}
use arataga.NameserverInteractor.Accounts.{
  lookup_request, updated_dns_params, one_second_timer, package_received, ongoing_weight, asked,
  answered, untranslated, unparsed, after, over, only, lookups_accounted, unparsed_request_lost,
}
use arataga.NameserverInteractor.Servers.{
  servers_at, times, within, overdue, timed_out_response, evt_updated_dns_params_lem,
  evt_one_second_timer_lem,
}
use arataga.NameserverInteractor.Request.{request_package_read_back}

unfoldable read_bytes : ℕ → Bytes → Option (Bytes × Bytes)
read_bytes zero s = some ([], s)
read_bytes (suc n) [] = none
read_bytes (suc n) (b ∷ s) = elim (read_bytes n s) [ none ↦ none | some (bs, t) ↦ some (b ∷ bs, t) ]

unfoldable skip_bytes : ℕ → Bytes → Option Bytes
skip_bytes zero s = some s
skip_bytes (suc n) [] = none
skip_bytes (suc n) (b ∷ s) = skip_bytes n s

unfoldable big_endian : Bytes → Option (ℕ × Bytes)
big_endian [] = none
big_endian (a ∷ []) = none
big_endian (a ∷ b ∷ s) = some (a * 256 + b, s)

unfoldable big_endians : ℕ → Bytes → Option (List ℕ × Bytes)
unfolding big_endian
big_endians zero s = some ([], s)
big_endians (suc n) s = elim (big_endian s) [
  | none ↦ none
  | some (a, t) ↦ elim (big_endians n t) [ none ↦ none | some (rest, u) ↦ some (a ∷ rest, u) ]
]

unfoldable read_byte : Bytes → Option (ℕ × Bytes)
read_byte [] = none
read_byte (b ∷ s) = some (b, s)

unfoldable read_four : Bytes → Option (ℕ × Bytes)
unfolding big_endian
read_four s = elim (big_endian s) [
  | none ↦ none
  | some (a, t) ↦ elim (big_endian t) [ none ↦ none | some (b, u) ↦ some (a * 65536 + b, u) ]
]

abbrev network_io : BinaryIo Bytes
network_io = record {
  read_uchar = read_byte;
  read_ushort = big_endian;
  read_uint = read_four;
  read_ushorts = big_endians;
  read = read_bytes;
  shift_bytes = skip_bytes;
  ifixed_mem_buf = λ xs. xs;
  write_ushort = λ n. (n / 256) ∷ (n % 256) ∷ [];
}

read_bytes-append : (xs rest : Bytes) → read_bytes (length xs) (xs ++ rest) ≡ some (xs, rest)
unfolding read_bytes
read_bytes-append [] rest = refl
read_bytes-append (x ∷ xs) rest = ground (arith, read_bytes-append xs rest)

network_io-IsBinaryIo : IsBinaryIo network_io
unfolding read_byte big_endian
network_io-IsBinaryIo = record {
  content = λ s. s;
  uchar = λ s b rest e. (rest, ap read_byte e, refl);
  bytes = λ s xs rest e. (rest, ap (read_bytes (length xs)) e ∙ read_bytes-append xs rest, refl);
  ushort =
      λ s n rest h e. (rest, ap big_endian e ∙ ap (λ (v : ℕ). some (v, rest)) (omega arith), refl);
  mem_buf = λ xs. refl;
}

-- "a.bc" and "a.bc."
abbrev short_name : Bytes
short_name = 97 ∷ 46 ∷ 98 ∷ 99 ∷ []

short_name_translated :
    translate (short_name ++ (46 ∷ [])) ≡ translated (1 ∷ 97 ∷ 2 ∷ 98 ∷ 99 ∷ 0 ∷ [])
unfolding translate translate_labels take_label without_ending_dot
short_name_translated = refl

-- Two references that name each other.
circle_refused :
    read_from_memory_buffer network_io (192 ∷ 2 ∷ 192 ∷ 0 ∷ []) (192 ∷ 2 ∷ 192 ∷ 0 ∷ []) ≡ failed
unfolding read_from_memory_buffer read_from_memory_buffer_impl load_size_byte at_reference read_byte
    skip_bytes
circle_refused = refl

-- A byte with only the second highest bit set is taken for a reference too.
reserved_as_reference :
    read_from_memory_buffer network_io (64 ∷ 2 ∷ 1 ∷ 97 ∷ 0 ∷ []) (64 ∷ 2 ∷ 1 ∷ 97 ∷ 0 ∷ [])
    ≡ loaded (1 ∷ 97 ∷ 0 ∷ [], 1 ∷ 97 ∷ 0 ∷ [])
unfolding read_from_memory_buffer read_from_memory_buffer_impl load_size_byte load_next_label
    at_reference read_byte read_bytes skip_bytes
reserved_as_reference = refl

read_from_memory_buffer-ends_example :
    read_from_memory_buffer network_io (192 ∷ 0 ∷ []) (192 ∷ 0 ∷ []) ≢ out_of_fuel
read_from_memory_buffer-ends_example =
    read_from_memory_buffer-ends network_io (192 ∷ 0 ∷ []) (192 ∷ 0 ∷ [])

read_from_stream-ends_example : read_from_stream network_io (192 ∷ 0 ∷ []) ≢ out_of_fuel
read_from_stream-ends_example = read_from_stream-ends network_io (192 ∷ 0 ∷ [])

without_dot : without_ending_dot (short_name ++ (46 ∷ [])) ≡ short_name
unfolding without_ending_dot
without_dot = refl

without_dot-le : length (without_ending_dot (short_name ++ (46 ∷ []))) ≤ 253
unfolding without_ending_dot
without_dot-le = omega arith

translated_name_read_back_example :
    (t : Bytes) × (t ≡ 7 ∷ [])
    × (read_from_memory_buffer network_io [] (1 ∷ 97 ∷ 2 ∷ 98 ∷ 99 ∷ 0 ∷ 7 ∷ [])
        ≡ loaded (1 ∷ 97 ∷ 2 ∷ 98 ∷ 99 ∷ 0 ∷ [], t))
    × (read_from_stream network_io (1 ∷ 97 ∷ 2 ∷ 98 ∷ 99 ∷ 0 ∷ 7 ∷ [])
        ≡ loaded (1 ∷ 97 ∷ 2 ∷ 98 ∷ 99 ∷ 0 ∷ [], t))
    × (dump_to (1 ∷ 97 ∷ 2 ∷ 98 ∷ 99 ∷ 0 ∷ [])
        ≡ loaded (closed (without_ending_dot (short_name ++ (46 ∷ [])))))
unfolding network_io-IsBinaryIo
translated_name_read_back_example =
    translated_name_read_back network_io network_io-IsBinaryIo (short_name ++ (46 ∷ []))
      (1 ∷ 97 ∷ 2 ∷ 98 ∷ 99 ∷ 0 ∷ []) [] (7 ∷ []) (1 ∷ 97 ∷ 2 ∷ 98 ∷ 99 ∷ 0 ∷ 7 ∷ [])
      short_name_translated without_dot-le refl

-- Three labels of 63 letters and one of 62.
abbrev letters : ℕ → Bytes
letters n = replicate n 97

abbrev longest_name : Bytes
longest_name = letters 63 ++ (46 ∷ (letters 63 ++ (46 ∷ (letters 63 ++ (46 ∷ letters 62)))))

abbrev longest_translation : Bytes
longest_translation = encode (letters 63 ∷ letters 63 ∷ letters 63 ∷ letters 62 ∷ []) ++ (0 ∷ [])

longest_name_translated : translate longest_name ≡ translated longest_translation
unfolding translate translate_labels take_label without_ending_dot
longest_name_translated = refl

length-longest_name : length (without_ending_dot longest_name) ≡ 254
unfolding without_ending_dot
length-longest_name = refl

longest_name_unreadable_example :
    (read_from_memory_buffer network_io [] longest_translation ≡ failed)
    × (read_from_stream network_io longest_translation ≡ failed)
unfolding network_io-IsBinaryIo
longest_name_unreadable_example =
    longest_name_unreadable network_io network_io-IsBinaryIo longest_name longest_translation [] []
      longest_translation longest_name_translated length-longest_name refl

abbrev no_address : ResourceData → Option Bytes
no_address no_data = none
no_address (type_a a) = some a
no_address (type_aaaa a) = none

abbrev first_id : OngoingReqId
first_id = record { id = 1; address = 8 }

abbrev first_data : OngoingReqData
first_data = record {
  domain_name = short_name;
  reply_to = 3;
  result_processor = 5;
  start_time = 10;
}

abbrev waiting : Interactor
waiting = record {
  dns_resolving_timeout = 4;
  nservers = record { address = 8; req_id_counter = 1 } ∷ [];
  last_nserver_index = 0;
  ongoing_requests = (first_id, first_data) ∷ [];
}

abbrev request : LookupRequest
request = record {
  domain_name = short_name;
  ip_version = ip_v4;
  reply_to = 3;
  result_processor = 5;
}

-- One answer is promised, and nothing follows.
abbrev broken_package : Bytes
broken_package = 0 ∷ 1 ∷ 128 ∷ 0 ∷ 0 ∷ 0 ∷ 0 ∷ 1 ∷ 0 ∷ 0 ∷ 0 ∷ 0 ∷ []

abbrev broken_header : DnsHeader
broken_header = record { id = 1; flags = 32768; qdcount = 0; ancount = 1; nscount = 0; arcount = 0 }

broken_header_read : read_header network_io broken_package ≡ some (broken_header, [])
unfolding read_header big_endian
broken_header_read = refl

broken_unparsed : parse_response network_io no_address broken_header broken_package [] ≡ none
unfolding parse_response read_questions read_answers read_record read_from_memory_buffer
    read_from_memory_buffer_impl load_size_byte read_byte
broken_unparsed = refl

waiting_found : lookup first_id waiting.ongoing_requests ≡ some first_data
unfolding lookup
waiting_found = refl

waiting-Unique : Unique waiting.ongoing_requests
unfolding lookup
waiting-Unique = (refl, tt)

lookups_accounted_example :
    over network_io no_address
        (λ e _. asked (λ n. 1) e)
        (updated_dns_params 4 (8 ∷ []) ∷ lookup_request 10 request ∷ one_second_timer 15 ∷ [])
        (make_interactor 4)
      + over network_io no_address
          (untranslated network_io no_address (λ n. 1))
          (updated_dns_params 4 (8 ∷ []) ∷ lookup_request 10 request ∷ one_second_timer 15 ∷ [])
          (make_interactor 4)
    ≡ ongoing_weight
        (λ n. 1)
        (after network_io no_address
          (updated_dns_params 4 (8 ∷ []) ∷ lookup_request 10 request ∷ one_second_timer 15 ∷ [])
          (make_interactor 4))
      + over network_io no_address
          (answered network_io no_address (λ n. 1))
          (updated_dns_params 4 (8 ∷ []) ∷ lookup_request 10 request ∷ one_second_timer 15 ∷ [])
          (make_interactor 4)
      + over network_io no_address
          (unparsed network_io no_address (λ n. 1))
          (updated_dns_params 4 (8 ∷ []) ∷ lookup_request 10 request ∷ one_second_timer 15 ∷ [])
          (make_interactor 4)
lookups_accounted_example =
    lookups_accounted network_io no_address (λ n. 1)
      (updated_dns_params 4 (8 ∷ []) ∷ lookup_request 10 request ∷ one_second_timer 15 ∷ []) 4

unparsed_request_lost_example :
    over network_io no_address
      (answered network_io no_address (only 5))
      (package_received 8 broken_package ∷ one_second_timer 100 ∷ [])
      waiting
    ≡ 0
unparsed_request_lost_example =
    unparsed_request_lost network_io no_address 8 broken_package waiting first_data broken_header []
      (one_second_timer 100 ∷ []) waiting-Unique broken_header_read refl broken_unparsed
      waiting_found refl refl

evt_updated_dns_params_lem_example :
    servers_at 9 (evt_updated_dns_params 4 (9 ∷ 8 ∷ 9 ∷ []) waiting).nservers
    ≡ times 9 (9 ∷ 8 ∷ 9 ∷ [])
evt_updated_dns_params_lem_example = evt_updated_dns_params_lem 4 9 (9 ∷ 8 ∷ 9 ∷ []) waiting

evt_one_second_timer_lem_example : evt_one_second_timer {A = Bytes} 15 waiting ≡ (
  record waiting { ongoing_requests = filter (within 4 15) waiting.ongoing_requests },
  record {
    responses = map timed_out_response (filter (overdue 4 15) waiting.ongoing_requests);
    packages = [];
  },
)
evt_one_second_timer_lem_example = evt_one_second_timer_lem Bytes 15 waiting

request_package_read_back_example :
    (bytes : Bytes) × ((form_and_send_dns_udp_package network_io no_address
        (short_name ++ (46 ∷ []))
        ip_v4
        first_id
        first_data).packages
      ≡ record { address = 8; bytes = bytes } ∷ [])
    × (s : Bytes) × (read_header network_io bytes
        ≡ some
            (record { id = 1; flags = 256; qdcount = 1; ancount = 0; nscount = 0; arcount = 0 }, s))
    × (t : Bytes) × (read_question network_io s
        ≡ some (record { qname = 1 ∷ 97 ∷ 2 ∷ 98 ∷ 99 ∷ 0 ∷ []; qtype = 1; qclass = 1 }, t))
    × (t ≡ [])
unfolding network_io-IsBinaryIo
request_package_read_back_example =
    request_package_read_back network_io network_io-IsBinaryIo no_address (short_name ++ (46 ∷ []))
      (1 ∷ 97 ∷ 2 ∷ 98 ∷ 99 ∷ 0 ∷ []) ip_v4 first_id first_data short_name_translated without_dot-le
      (omega arith)
