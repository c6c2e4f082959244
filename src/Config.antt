-- ===== src/Config.antt =====
-- arataga/config.hpp and arataga/utils/acl_req_id.hpp: the config as the parser hands it over, and
-- the seeds of the IDs.
--
-- IP addresses are numbers, in the order that Asio's comparison gives them. Times are in
-- milliseconds.
use arataga.Prelude.{ℕ, List}
use arataga.Bandlim.{BandlimConfig}
use arataga.Authentificator.{DeniedCase}

pub data AclProtocol : Type 0 where
  autodetect socks http : AclProtocol

-- The value of the `enum`, which the comparisons use.
abbrev pub protocol_value : AclProtocol → ℕ
protocol_value autodetect = 0
protocol_value socks = 1
protocol_value http = 2

pub record AclConfig : Type 0 where
  pub protocol : AclProtocol
  pub port : ℕ
  pub in_addr : ℕ
  pub out_addr : ℕ

pub record HttpMessageValueLimits : Type 0 where
  pub max_request_target_length : ℕ
  pub max_field_name_length : ℕ
  pub max_field_value_length : ℕ
  pub max_total_headers_size : ℕ
  pub max_status_line_length : ℕ

pub record CommonAclParams : Type 0 where
  pub maxconn : ℕ
  pub client_bandlim : BandlimConfig
  pub failed_auth_reply_timeout : ℕ
  pub protocol_detection_timeout : ℕ
  pub socks_handshake_phase_timeout : ℕ
  pub dns_resolving_timeout : ℕ
  pub authentification_timeout : ℕ
  pub connect_target_timeout : ℕ
  pub socks_bind_timeout : ℕ
  pub idle_connection_timeout : ℕ
  pub http_headers_complete_timeout : ℕ
  pub http_negative_response_timeout : ℕ
  pub io_chunk_size : ℕ
  pub io_chunk_count : ℕ
  pub http_message_limits : HttpMessageValueLimits

pub record Config : Type 0 where
  pub log_level : ℕ
  pub dns_cache_cleanup_period : ℕ
  pub nameserver_ips : List ℕ
  pub denied_ports : List DeniedCase
  pub common_acl_params : CommonAclParams
  pub acls : List AclConfig

pub record AclReqIdSeed : Type 0 where
  pub seed : ℕ
  pub ordinal : ℕ
