-- ===== src/Http/Message.antt =====
-- src/whz_common.hpp: the header and the request that the parser fills.
use work_horz.Base.{ℕ, List, Bytes}

pub record Header : Type 0 where
  pub name : Bytes
  pub value : Bytes

-- The two version fields are std::uint8_t.
pub record Request : Type 0 where
  pub method : Bytes
  pub uri : Bytes
  pub http_version_major : ℕ
  pub http_version_minor : ℕ
  pub headers : List Header
