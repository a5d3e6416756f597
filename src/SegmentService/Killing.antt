-- ===== src/SegmentService/Killing.antt =====
-- What a failure in a node of a segment does to the segment's runners.
use srf.Base.{text_key}
use srf.Runnable.{Runnable}
