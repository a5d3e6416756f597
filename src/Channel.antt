-- ===== src/Channel.antt =====
-- include/srf/channel: the outcomes of reads and writes, and the channels that the library implements.
pub mod Recent

-- channel/status.hpp
pub data Status : Type 0 where
  success empty full closed timeout error : Status
