-- ===== src/Examples/Streams.antt =====
-- Chunks of a connection, and the theorems about `receive` at them.
use mathlib.Core.List.{flatten}
use statsd.Base.{◌≡◌, refl, true, false, List, [], ◌∷◌, ◌++◌, All}
use statsd.Js.Text.{Text, codes, contains}
use statsd.Tcp.{newline, receive}
use statsd.Tcp.Stream.{ends_line, receive_stream, receive_chunks}

abbrev halves : List Text
halves = codes "a:1|" ∷ codes "c\nb:2" ∷ []

abbrev whole : List Text
whole = codes "a:1|c\nb:2" ∷ []

received : receive halves [] ≡ (codes "a:1|c\n" ∷ [], codes "b:2")
unfolding receive
received = refl

receive_stream_example :
    let (packets, buffer) = receive halves [] in
    (flatten packets ++ buffer ≡ flatten halves)
    × All (λ p. ends_line p ≡ true) packets
    × (contains newline buffer ≡ false)
receive_stream_example = receive_stream halves

same_text : flatten halves ≡ flatten whole
unfolding flatten
same_text = refl

receive_chunks_example :
    (flatten (receive halves []).0 ≡ flatten (receive whole []).0)
    × ((receive halves []).1 ≡ (receive whole []).1)
receive_chunks_example = receive_chunks halves whole same_text
