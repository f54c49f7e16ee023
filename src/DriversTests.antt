-- ===== src/DriversTests.antt =====
-- aarch64/src: the drivers on devices that become ready after some reads.
use r.Common.{
  ℕ, ◌+◌, ◌*◌, ◌/◌, ◌%◌, ◌^◌, ◌≡◌, refl, if◌then◌else◌, ◌==◌, List, [], ◌∷◌, done, arith,
}
use r.Mem.{VirtRange}
use r.Aarch64.Io.{Devices, after}
use r.Aarch64.Mailbox.{
  Mailbox, mailbox_request, Tag, set_clock_rate, request_words, message_size, tag_size, mbox_full,
  mbox_empty,
}
use r.Aarch64.Uart.{select_uart1}
use r.Aarch64.Drivers.{select_uart1_lem, mailbox_request-answered, asked, request_words-short}

abbrev range_at : ℕ → VirtRange
range_at start = record { start = start; end = start + 64 }

-- A mailbox that answers the request that it was given; its status says once that it is full.
abbrev video_core : Devices (ℕ × ℕ)
video_core = record {
  load = λ (n, word) addr.
      if addr == 0x300
      then (word, (n + 1, word))
      else (if n == 0 then mbox_full else if n == 2 then mbox_empty else 0, (n + 1, word));
  store = λ (n, word) addr w. (n, w);
}

abbrev mailbox : Mailbox
mailbox = record { mbox_range = range_at 0x300 }

mailbox_request-answered_example :
    mailbox_request video_core mailbox 0x8000 3 (0, 0)
    ≡ done
        (video_core.load
          (after video_core 0x318 2 (asked video_core 0x8000 0x318 0x320 1 (0, 0)))
          0x300).1
unfolding r.Mem.virt_offset_addr
mailbox_request-answered_example =
    mailbox_request-answered video_core mailbox 0x8000 0x318 0x320 0x300 1 1 3 (0, 0) refl refl refl
      (omega arith) (omega arith) (refl, refl) (refl, refl) refl

select_uart1_lem_example :
    select_uart1 0x24009 ≡ 0x24009 / 2 ^ 18 * 2 ^ 18 + 0x12 * 2 ^ 12 + 0x24009 % 2 ^ 12
select_uart1_lem_example = select_uart1_lem 0x24009 (omega arith)

-- The message of `set_clock_rate`.
abbrev clock_tag : Tag
clock_tag = record {
  tag_id0 = set_clock_rate;
  tag_buffer_size0 = 12;
  tag_code0 = 0;
  body = 2 ∷ 3000000 ∷ 0 ∷ [];
  end_tag = 0;
}

request_words-short_example :
    (size : ℕ) × (rest : List ℕ) × (request_words 0 clock_tag 12 8 ≡ size ∷ rest)
    × (size + 16 ≡ message_size (tag_size 12) (tag_size 8))
request_words-short_example = request_words-short 0 12 8 clock_tag
