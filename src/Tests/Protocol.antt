-- ===== src/Tests/Protocol.antt =====
-- A session of one command, as src/bash_session.cpp reads it.
use whyrun.Session.{decode_record, Marker, consume, fresh, finish}
use whyrun.Common.Number.{to_string}
use whyrun.Common.{◌≡◌, refl, List, [], ◌∷◌, ◌++◌, map, codes, ok, ◌>>=◌, arith, All}
use whyrun.Session.Bounds.{IsBounded, consume-IsBounded}
use whyrun.Session.Chunks.{consume-append}
use whyrun.Session.Framing.{Spells, finish-consume}
use whyrun.Session.Report.{Report, armed, started, ended_with, report_marker, stream, IsWritten}
use whyrun.Session.RoundTrip.{consume-stream}

abbrev one_command : List Report
one_command =
    armed 1 (codes "/")
    ∷ started 1 (codes "/") (codes "  1  ") (codes "ls")
    ∷ ended_with 1 0 (codes "/tmp")
    ∷ []

one_command-IsWritten : All IsWritten one_command
one_command-IsWritten = ground arith

abbrev markers : List Marker
markers = map report_marker one_command

read_back : consume fresh (stream one_command) ≡ ok (fresh, markers)
unfolding consume stream to_string decode_record report_marker
read_back = refl

consume-stream_example : consume fresh (stream one_command) ≡ ok (fresh, markers)
consume-stream_example = consume-stream one_command one_command-IsWritten

finish-consume_example : Spells markers (stream one_command)
unfolding finish
finish-consume_example = finish-consume (stream one_command) fresh markers read_back refl

-- The first report, cut inside a field.
consume-append_example : consume fresh ((b'A' ∷ 0 ∷ b'1' ∷ []) ++ 0 ∷ b'/' ∷ 0 ∷ 0 ∷ []) ≡ (
    consume fresh (b'A' ∷ 0 ∷ b'1' ∷ []) >>= λ (q, first).
    consume q (0 ∷ b'/' ∷ 0 ∷ 0 ∷ []) >>= λ (r, second). ok (r, first ++ second))
consume-append_example = consume-append fresh (b'A' ∷ 0 ∷ b'1' ∷ []) (0 ∷ b'/' ∷ 0 ∷ 0 ∷ [])

consume-IsBounded_example : IsBounded fresh
consume-IsBounded_example =
    consume-IsBounded fresh fresh (stream one_command) markers read_back
      (record { pending = omega arith; short = tt; few = omega arith })
