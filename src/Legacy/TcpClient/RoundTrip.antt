-- ===== src/Legacy/TcpClient/RoundTrip.antt =====
-- A request of the client through a worker and back, where each message arrives as one.
use components_network.Prelude.{
  append-nil, ap, ◌∙◌, ◌≡◌, refl, ◌≤◌, number_key, ◌++◌, Bytes, Bool, true, false, not, ◌&&◌, List,
  [], ◌∷◌, Bool-cases, inl, inr, arith, if◌then◌else◌, length,
}
use components_network.Legacy.Exchange.{Packet, Codec, IsLossless, Processors, process, to_bytes}
use components_network.Legacy.Exchange.Dispatch.{from_bytes-to_bytes, length-to_bytes}
use components_network.Legacy.Workers.{Worker}
use components_network.Legacy.Workers
use components_network.Legacy.TcpClient.{
  Client, Signal, got_packet, is_empty, send_message_slot, on_message,
}

-- A worker answers each text that it gets. Where nothing is written, nothing arrives.
abbrev pub serve : Codec → Processors → Worker → List Bytes → Worker × List Bytes
serve c ps w [] = (w, [])
serve c ps w ([] ∷ texts) = serve c ps w texts
serve c ps w ((x ∷ text) ∷ texts) =
    let one = Workers.on_message c ps (x ∷ text) w in
    let rest = serve c ps one.0 texts in (rest.0, one.1 ++ rest.1)

-- The client reads each text that it gets.
abbrev pub read_all : Codec → List Bytes → Client → Client
read_all c [] d = d
read_all c ([] ∷ texts) d = read_all c texts d
read_all c ((x ∷ text) ∷ texts) d = read_all c texts (on_message c (x ∷ text) d)

-- `sendMessage` and all that comes of it: the client and the worker after it.
unfoldable pub exchange : Codec → Processors → Packet → Client → Worker → Client × Worker
exchange c ps p d w =
    let sent = send_message_slot c false p d in
    let served = serve c ps w sent.1 in (read_all c served.1 sent.0, served.0)

-- The packets that reach the user of the client.
abbrev pub answers : Processors → Packet → List Signal
answers ps p =
    let response = (process ps p).0 in
    if not (is_empty p.command) && p.is_valid && response.is_valid
    then got_packet response ∷ []
    else []

read-written :
    (c : Codec) (p : Packet) (d : Client)
    → IsLossless c
    → p.is_valid ≡ true
    → (on_message c (to_bytes c p) d).emitted ≡ got_packet p ∷ d.emitted
unfolding on_message
read-written c p d l v = rw (from_bytes-to_bytes c p l v) (ground (arith, length-to_bytes c p l v))

-- A text of two bytes or more arrives.
serve_one :
    (c : Codec) (ps : Processors) (w : Worker) (text : Bytes)
    → 2 ≤ length text
    → serve c ps w (text ∷ [])
      ≡ ((Workers.on_message c ps text w).0, (Workers.on_message c ps text w).1)
serve_one c ps w (x ∷ text) h = rw append-nil refl
serve_one c ps w [] h = absurd (omega arith)

read_one :
    (c : Codec) (text : Bytes) (d : Client)
    → 2 ≤ length text
    → read_all c (text ∷ []) d ≡ on_message c text d
read_one c (x ∷ text) d h = refl
read_one c [] d h = absurd (omega arith)

-- What a connected worker writes for a request that was written whole.
abbrev pub replies : Codec → Packet → List Bytes
replies c response = if response.is_valid then to_bytes c response ∷ [] else []

on_message-replies :
    (c : Codec) (ps : Processors) (p : Packet) (w : Worker)
    → IsLossless c
    → p.is_valid ≡ true
    → Workers.is_connected w.socket ≡ true
    → (Workers.on_message c ps (to_bytes c p) w).1 ≡ replies c (process ps p).0
unfolding Workers.on_message
on_message-replies c ps p w l v h = rw (from_bytes-to_bytes c p l v, h, v) (ground arith)

-- The answer to what was written, when it comes back.
returned :
    (c : Codec) (response : Packet) (d : Client) (b : Bool)
    → IsLossless c
    → response.is_valid ≡ b
    → (read_all c (if b then to_bytes c response ∷ [] else []) d).emitted
      ≡ (if b then got_packet response ∷ [] else []) ++ d.emitted
returned c response d true l v =
    ap (λ d. d.emitted) (read_one c (to_bytes c response) d (length-to_bytes c response l v))
    ∙ read-written c response d l v
returned c response d false l v = refl

to_bytes_invalid : (c : Codec) (p : Packet) → p.is_valid ≡ false → to_bytes c p ≡ []
unfolding to_bytes
to_bytes_invalid c p v = rw v refl

answered :
    (c : Codec) (ps : Processors) (p : Packet) (d : Client) (w : Worker) (b : Bool)
    → IsLossless c
    → Workers.is_connected w.socket ≡ true
    → p.is_valid ≡ b
    → (read_all c (serve c ps w (to_bytes c p ∷ [])).1 d).emitted
      ≡ (if b && (process ps p).0.is_valid then got_packet (process ps p).0 ∷ [] else [])
        ++ d.emitted
answered c ps p d w true l k v =
    ap (λ s. (read_all c s.1 d).emitted) (serve_one c ps w (to_bytes c p) (length-to_bytes c p l v))
    ∙ ap (λ texts. (read_all c texts d).emitted) (on_message-replies c ps p w l v k)
    ∙ returned c (process ps p).0 d (process ps p).0.is_valid l refl
answered c ps p d w false l k v =
    ap (λ text. (read_all c (serve c ps w (text ∷ [])).1 d).emitted) (to_bytes_invalid c p v)

-- With a lossless codec, a connected client that asks a connected worker gets the response of the
-- processor, and nothing else, if the command is not empty and both the packet and the response are
-- marked as valid; in all other cases it gets nothing at all.
pub exchange-answers :
    (c : Codec) (ps : Processors) (p : Packet) (d : Client) (w : Worker)
    → IsLossless c
    → d.socket_connected ≡ true
    → Workers.is_connected w.socket ≡ true
    → (exchange c ps p d w).0.emitted ≡ answers ps p ++ d.emitted
unfolding exchange send_message_slot
exchange-answers c ps p d w l h k = elim (Bool-cases (is_empty p.command)) [
  | inl e ↦ rw (h, e) refl
  | inr e ↦
      rw (h, e)
        (answered c ps p (record d { response_got = false; socket_connected = true }) w p.is_valid l
          k refl)
]
