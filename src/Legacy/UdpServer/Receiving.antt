-- ===== src/Legacy/UdpServer/Receiving.antt =====
-- What becomes of the datagrams, of which no thread is ever started.
use mathlib.Core.Option
use components_network.Prelude.{
  ◌≡◌, refl, ap, sym, subst, ◌∙◌, Bytes, Bool, false, List, [], ◌∷◌, ◌++◌, some, if_cases, ltb,
}
use components_network.Legacy.Exchange.{Codec, from_bytes}
use components_network.Legacy.UdpServer.{
  Server, receive_all, on_message, process_thread_loop, get_message, thread_finished_signal,
}

-- The datagrams in `before` are followed by the last one.
receive_all_lem :
    (before : List Bytes) (last first : Bytes) (rest : List Bytes) (slots : List Bool) (d : Server)
    → d.process_threads ≡ false ∷ slots
    → d.thread_inputs ≡ first ∷ rest
    → receive_all (before ++ last ∷ []) d ≡ record d { pending = []; thread_inputs = last ∷ rest }
unfolding receive_all
receive_all_lem [] last first rest slots d t i = rw (t, i) refl
receive_all_lem (m ∷ before) last first rest slots d t i =
    rw (t, i)
      (receive_all_lem before last m rest slots
        (record d { process_threads = false ∷ slots; thread_inputs = m ∷ rest }) refl refl)

-- What the thread of a slot would do with its input.
process_thread_loop_lem :
    (c : Codec) (d : Server) (input : Bytes) (rest : List Bytes)
    → d.thread_inputs ≡ input ∷ rest
    → d.results ≡ []
    → Option.map (λ (s : Server). s.emitted) (process_thread_loop c 0 d)
      ≡ some (d.emitted ++ from_bytes c input ∷ [])
unfolding process_thread_loop get_message thread_finished_signal
process_thread_loop_lem c d input rest e r =
    rw (e, r)
      (if_cases {A = Server} (λ s. some s.emitted ≡ some (d.emitted ++ from_bytes c input ∷ []))
        (ltb 0 d.thread_count) (λ t. refl) (λ f. refl))

-- Where the first slot is free, all datagrams that are pending are stored in it, each over the one
-- before, and none is processed: `packetReceived` is emitted for none of them, and a thread that
-- were started for the slot would emit the packet of the last one alone.
pub on_message_lem :
    (c : Codec) (before : List Bytes) (last first : Bytes) (rest : List Bytes) (slots : List Bool)
    (d : Server)
    → d.process_threads ≡ false ∷ slots
    → d.thread_inputs ≡ first ∷ rest
    → d.pending ≡ before ++ last ∷ []
    → d.results ≡ []
    → (on_message d ≡ record d { pending = []; thread_inputs = last ∷ rest })
      × (Option.map (λ (s : Server). s.emitted) (process_thread_loop c 0 (on_message d))
          ≡ some (d.emitted ++ from_bytes c last ∷ []))
unfolding on_message
on_message_lem c before last first rest slots d t i e r =
    let stored =
      ap (λ ms. receive_all ms d) e ∙ receive_all_lem before last first rest slots d t i in
    (
      stored,
      subst
          (λ s.
            Option.map (λ (s : Server). s.emitted) (process_thread_loop c 0 s)
            ≡ some (d.emitted ++ from_bytes c last ∷ []))
          (sym stored)
          (process_thread_loop_lem c (record d { pending = []; thread_inputs = last ∷ rest }) last
            rest refl r),
    )
