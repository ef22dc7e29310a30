-- ===== src/ClientIp.antt =====
-- api/internal/api/clientip.go: the address by which a request is rate limited. What the packages
-- net and net/http do is a parameter: `split_host_port` gives the host of an address,
-- `parse_ip` the canonical form of an address, and a request is its peer and its headers.
pub mod Spoof
use know_your_repo.Prelude.{
  ℕ, zero, suc, ◌-◌, Bool, ◌||◌, not, List, [], ◌∷◌, Option, some, none, length, get_elem?, ltb,
  ◌==◌, if◌then◌else◌,
}
use know_your_repo.Text.{Text, is_empty, codes, split, trim_space, equal_fold}
use mathlib.Core.Option

pub record Request : Type 0 where
  pub remote_addr : Text
  pub get_header : Text → Text

abbrev pub forwarded_for : Text
forwarded_for = codes "X-Forwarded-For"

abbrev pub comma : ℕ
comma = b','

-- `entries[i]`; Go's access is in range wherever the code makes it.
abbrev pub entry : List Text → ℕ → Text
entry entries i = Option.get_or (get_elem? entries i) []

module _ (parse_ip split_host_port : Text → Option Text) where
  pub remote_host : Text → Text
  remote_host addr = Option.get_or (split_host_port addr) addr

  -- The address if it is one, and the peer otherwise.
  pub ip_or : Text → Text → Text
  ip_or remote candidate = Option.get_or (parse_ip (trim_space candidate)) remote

  pub resolve_client_ip : Request → ℕ → Text → Text
  unfolding remote_host ip_or
  resolve_client_ip r trusted_hops header =
      let remote = remote_host r.remote_addr in
      let value = r.get_header header in
      let entries = split comma value in
      if (trusted_hops == 0) || is_empty header
      then remote
      else if is_empty value
      then remote
      else if not (equal_fold header forwarded_for)
      then ip_or remote (entry entries (length entries - 1))
      else if ltb (length entries) trusted_hops
      then remote
      else ip_or remote (entry entries (length entries - trusted_hops))
