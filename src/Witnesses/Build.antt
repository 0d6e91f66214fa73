-- ===== src/Witnesses/Build.antt =====
-- The build information at concrete values.
use ulcer.Prelude.{text, arith}
use ulcer.BuildInfo.{escape_path_segment}
use ulcer.BuildInfo.Segments.{IsSegmentOf, escape_path_segment-IsSegmentOf}

escape_path_segment-IsSegmentOf_example :
    IsSegmentOf (text "a/..") (escape_path_segment (text "a/.."))
escape_path_segment-IsSegmentOf_example =
    escape_path_segment-IsSegmentOf (text "a/..")
      (omega arith, (omega arith, (omega arith, (omega arith, tt))))
