-- ===== src/NameserverInteractor/Request.antt =====
-- arataga/dns_resolver/interactor/a_nameserver_interactor.cpp with arataga/dns_resolver/dns_types.hpp:
-- the package of a request says what is asked for.
use arataga.Prelude.{
  ℕ, ◌≤◌, ◌<◌, ◌≡◌, sym, ◌∙◌, Option, some, [], ◌∷◌, ◌++◌, arith, length, append_assoc, append-nil,
}
use arataga.Prelude.Eq.{Bytes}
use arataga.DnsConductor.{IpVersion, ip_v4, ip_v6}
use arataga.DnsTypes.{BinaryIo, IsBinaryIo, translate, translated, without_ending_dot}
use arataga.DnsTypes.RoundTrip.{translated_name_read_back}
use arataga.DnsTypes.Packages.{
  DnsHeader, DnsQuestion, ResourceData, write_header, write_question, read_header, read_question,
  make_header, set_qr, set_rd, qclass_in,
}
use arataga.NameserverInteractor.{
  OngoingReqId, OngoingReqData, request_header, qtype_of, form_and_send_dns_udp_package,
}

-- Six words of 16 bits.
abbrev pub IsHeader : DnsHeader → Type 0
IsHeader h =
    (h.id < 65536)
    × (h.flags < 65536)
    × (h.qdcount < 65536)
    × (h.ancount < 65536)
    × (h.nscount < 65536)
    × (h.arcount < 65536)

qtype_lt : (v : IpVersion) → qtype_of v < 65536
qtype_lt ip_v4 = omega arith
qtype_lt ip_v6 = omega arith

module _ {S : Type 0} (io : BinaryIo S) (h : IsBinaryIo io) where
  pub read_header-write_header :
      (header : DnsHeader) (rest : Bytes) (s : S)
      → IsHeader header
      → h.content s ≡ write_header io header ++ rest
      → (t : S) × (read_header io s ≡ some (header, t)) × (h.content t ≡ rest)
  unfolding read_header write_header
  read_header-write_header header rest s (p1, p2, p3, p4, p5, p6) e =
      let w = io.write_ushort in
      let (s1, e1, c1) =
        h.ushort s header.id
          (w header.flags
            ++ (w header.qdcount
                ++ (w header.ancount ++ (w header.nscount ++ (w header.arcount ++ rest)))))
          p1 (e ∙ simp append_assoc) in
      let (s2, e2, c2) = h.ushort s1 header.flags _ p2 c1 in
      let (s3, e3, c3) = h.ushort s2 header.qdcount _ p3 c2 in
      let (s4, e4, c4) = h.ushort s3 header.ancount _ p4 c3 in
      let (s5, e5, c5) = h.ushort s4 header.nscount _ p5 c4 in
      let (s6, e6, c6) = h.ushort s5 header.arcount _ p6 c5 in (s6, ground arith, c6)

  pub read_question-write_question :
      (src v rest : Bytes) (qtype qclass : ℕ) (s : S)
      → translate src ≡ translated v
      → length (without_ending_dot src) ≤ 253
      → qtype < 65536
      → qclass < 65536
      → h.content s
        ≡ write_question io (record { qname = v; qtype = qtype; qclass = qclass }) ++ rest
      → (t : S) × (read_question io s
          ≡ some (record { qname = v; qtype = qtype; qclass = qclass }, t))
        × (h.content t ≡ rest)
  unfolding read_question write_question
  read_question-write_question src v rest qtype qclass s e n p q c =
      let w = io.write_ushort in
      let (s1, c1, _, e1, _) =
        translated_name_read_back io h src v [] (w qtype ++ (w qclass ++ rest)) s e n
          (c ∙ simp append_assoc) in
      let (s2, e2, c2) = h.ushort s1 qtype _ p c1 in
      let (s3, e3, c3) = h.ushort s2 qclass _ q c2 in (s3, ground arith, c3)

  -- The package for a name of at most 253 bytes goes to the nameserver of the request. Read back, it
  -- is a header with the request's ID, the flags of a request that asks for recursion, one question
  -- and no other parts; then the question for the name's translation, of type 1 (A) for an address
  -- of IPv4 and 28 (AAAA) for one of IPv6, and of class 1 (IN); and nothing behind it.
  pub request_package_read_back :
      {A : Type 0} (make_address : ResourceData → Option A)
      → (domain_name name : Bytes) → (ip_version : IpVersion) → (id : OngoingReqId)
      → (d : OngoingReqData) → translate domain_name ≡ translated name
      → length (without_ending_dot domain_name) ≤ 253
      → id.id < 65536
      → (bytes : Bytes) × ((form_and_send_dns_udp_package io make_address domain_name ip_version id
            d).packages
          ≡ record { address = id.address; bytes = bytes } ∷ [])
        × (s : S) × (read_header io (io.ifixed_mem_buf bytes)
            ≡ some (
              record {
                id = id.id;
                flags = 256;
                qdcount = 1;
                ancount = 0;
                nscount = 0;
                arcount = 0;
              },
              s,
            ))
        × (t : S) × (read_question io s
            ≡ some (
              record {
                qname = name;
                qtype = elim ip_version [ ip_v4 ↦ 1 | ip_v6 ↦ 28 ];
                qclass = 1;
              },
              t,
            ))
        × (h.content t ≡ [])
  unfolding form_and_send_dns_udp_package request_header make_header set_qr set_rd
  request_package_read_back make_address domain_name name ip_version id d e n b =
      let question : DnsQuestion = record {
        qname = name;
        qtype = qtype_of ip_version;
        qclass = qclass_in;
      } in
      let bytes = write_header io (request_header id.id) ++ write_question io question in
      let (s, e1, c1) =
        read_header-write_header (request_header id.id) (write_question io question)
          (io.ifixed_mem_buf bytes)
          (b, omega arith, omega arith, omega arith, omega arith, omega arith) (h.mem_buf bytes) in
      let (t, e2, c2) =
        read_question-write_question domain_name name [] (qtype_of ip_version) qclass_in s e n
          (qtype_lt ip_version) (omega arith)
          (c1 ∙ sym (append-nil (write_question io question))) in
      (bytes, ground arith, s, e1, t, e2, c2)
