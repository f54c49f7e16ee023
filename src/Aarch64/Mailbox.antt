-- ===== src/Aarch64/Mailbox.antt =====
-- aarch64/src/mailbox.rs: the mailbox between the processor and the video core.
--
-- A message is a buffer in memory, which the other side reads and answers in: it is written and read
-- by words, as the registers are. The mailbox behind its lock is the slot that `init` fills. The two
-- loops of `Mailbox::request` take a number of rounds, one for all of them.
use r.Common.{
  ℕ, zero, suc, ◌+◌, ◌-◌, ◌*◌, ◌/◌, ◌%◌, ◌^◌, max, bit_and, bit_or, Bool, true, false, not, ◌==◌,
  Option, some, List, [], ◌∷◌, ◌++◌, Run, done, hang, ◌>>=◌, expect,
}
use r.Common.Text.{codes}
use r.Common.Word.{add32, u32_mod}
use r.Fdt.Header.{DeviceTree}
use r.Mem.{VirtRange, PhysRange, with_end}
use r.Aarch64.Kmem.{kzero}
use r.Aarch64.Io.{Devices, read_reg, write_reg, wait}
use r.Aarch64.Discover.{device_range}

abbrev pub mbox_read : ℕ
mbox_read = 0x00

abbrev pub mbox_status : ℕ
mbox_status = 0x18

abbrev pub mbox_write : ℕ
mbox_write = 0x20

abbrev pub mbox_full : ℕ
mbox_full = 0x8000_0000

abbrev pub mbox_empty : ℕ
mbox_empty = 0x4000_0000

-- `(status & flag) != 0`.
abbrev pub has_flag : ℕ → ℕ → Bool
has_flag flag status = not (bit_and status flag == 0)

pub record Mailbox : Type 0 where
  pub mbox_range : VirtRange

unfoldable pub mailbox_new : DeviceTree → ℕ → Run Mailbox
mailbox_new dt mmio_virt_offset = do
  r ← device_range dt (codes "brcm,bcm2835-mbox") mmio_virt_offset
  done (record { mbox_range = r })

unfoldable pub mailbox_init : DeviceTree → Option Mailbox → Run (Option Mailbox)
mailbox_init dt mailbox = do m ← mailbox_new dt kzero; done (some m)

abbrev pub arm_to_vc : ℕ
arm_to_vc = 8

-- The address of the message, with the channel in its low bits.
abbrev pub request_word : ℕ → ℕ
request_word req = bit_or (bit_and (req % u32_mod) (u32_mod - 1 - 0xf)) arm_to_vc

module _ {D : Type 0} (devices : Devices D) where
  -- The loop that waits for the response.
  unfoldable pub await : Mailbox → ℕ → ℕ → D → Run D
  await mailbox r zero d = hang
  await mailbox r (suc fuel) d = do
    d' ← wait devices mailbox.mbox_range mbox_status (has_flag mbox_empty) (suc fuel) d
    (response, d'') ← read_reg devices mailbox.mbox_range mbox_read d'
    elim (response == r) [ true ↦ done d'' | false ↦ await mailbox r fuel d'' ]

  unfoldable pub mailbox_request : Mailbox → ℕ → ℕ → D → Run D
  mailbox_request mailbox req fuel d = do
    d' ← wait devices mailbox.mbox_range mbox_status (has_flag mbox_full) fuel d
    d'' ← write_reg devices mailbox.mbox_range mbox_write (request_word req) d'
    await mailbox (request_word req) fuel d''

-- `TagId`, by its numbers.
pub data TagId : Type 0 where
  get_firmware_revision get_board_model get_board_revision get_board_mac_address : TagId
  get_board_serial get_arm_memory get_vc_memory set_clock_rate : TagId

abbrev pub tag_id_code : TagId → ℕ
tag_id_code get_firmware_revision = 0x0000_0001
tag_id_code get_board_model = 0x0001_0001
tag_id_code get_board_revision = 0x0001_0002
tag_id_code get_board_mac_address = 0x0001_0003
tag_id_code get_board_serial = 0x0001_0004
tag_id_code get_arm_memory = 0x0001_0005
tag_id_code get_vc_memory = 0x0001_0006
tag_id_code set_clock_rate = 0x0003_8002

-- A tag with the words of its body.
pub record Tag : Type 0 where
  pub tag_id0 : TagId
  pub tag_buffer_size0 : ℕ
  pub tag_code0 : ℕ
  pub body : List ℕ
  pub end_tag : ℕ

abbrev pub tag_words : Tag → List ℕ
tag_words t =
    tag_id_code t.tag_id0 ∷ t.tag_buffer_size0 ∷ t.tag_code0 ∷ (t.body ++ (t.end_tag ∷ []))

abbrev round_to : ℕ → ℕ → ℕ
round_to a n = (n + a - 1) / a * a

-- `size_of` of a `Message<T, U>`, of the sizes of `T` and `U`: a union of a request and a response,
-- each of two words and a body, aligned to 16 bytes.
abbrev pub message_size : ℕ → ℕ → ℕ
message_size t u = round_to 16 (max (8 + round_to 4 t) (8 + round_to 4 u))

-- `size_of` of a `Tag<T>`.
abbrev pub tag_size : ℕ → ℕ
tag_size t = 12 + round_to 4 t + 4

-- What the function `request` puts into the message for bodies of `t` and `u` bytes.
unfoldable pub request_words : ℕ → Tag → ℕ → ℕ → List ℕ
request_words code tag t u = message_size t u ∷ code ∷ tag_words tag

module _ {D : Type 0} (devices : Devices D) where
  pub store_words : ℕ → List ℕ → D → D
  store_words addr [] d = d
  store_words addr (w ∷ ws) d = store_words (addr + 4) ws (devices.store d addr w)

  pub load_words : ℕ → ℕ → D → List ℕ × D
  load_words addr zero d = ([], d)
  load_words addr (suc n) d =
      let (w, d') = devices.load d addr in
      let (ws, d'') = load_words (addr + 4) n d' in (w ∷ ws, d'')

  module _ (mailbox : Option Mailbox) (msg fuel : ℕ) where
    -- The function `request`, for a message at the address `msg`: the words of the response's body.
    unfoldable pub request : ℕ → Tag → ℕ → ℕ → D → Run (List ℕ × D)
    unfolding store_words load_words
    request code tag t u d = do
      m ← expect mailbox
      d' ← mailbox_request devices m msg fuel (store_words msg (request_words code tag t u) d)
      done (load_words (msg + 20) ((u + 3) / 4) d')

    abbrev empty_tag : TagId → ℕ → Tag
    empty_tag id size = record {
      tag_id0 = id;
      tag_buffer_size0 = size;
      tag_code0 = 0;
      body = [];
      end_tag = 0;
    }

    unfoldable pub mailbox_set_clock_rate : ℕ → ℕ → ℕ → D → Run D
    mailbox_set_clock_rate clock_id rate_hz skip_setting_turbo d = do
      (_, d') ←
          request 0
            (record {
              tag_id0 = set_clock_rate;
              tag_buffer_size0 = 12;
              tag_code0 = 0;
              body = clock_id ∷ rate_hz ∷ skip_setting_turbo ∷ [];
              end_tag = 0;
            })
            12 8 d
      done d'

    abbrev pub word : List ℕ → ℕ → ℕ
    word [] i = 0
    word (w ∷ ws) zero = w
    word (w ∷ ws) (suc i) = word ws i

    -- The start and the size that a response holds, as a range.
    abbrev memory_range : List ℕ → Run PhysRange
    memory_range res = do end ← add32 (word res 0) (word res 1); done (with_end (word res 0) end)

    unfoldable pub mailbox_get_arm_memory : D → Run (PhysRange × D)
    mailbox_get_arm_memory d = do
      (res, d') ← request 0 (empty_tag get_arm_memory 12) 0 8 d
      r ← memory_range res
      done (r, d')

    unfoldable pub mailbox_get_vc_memory : D → Run (PhysRange × D)
    mailbox_get_vc_memory d = do
      (res, d') ← request 0 (empty_tag get_vc_memory 12) 0 8 d
      r ← memory_range res
      done (r, d')

    abbrev get_word : TagId → D → Run (ℕ × D)
    get_word id d = do (res, d') ← request 0 (empty_tag id 4) 0 4 d; done (word res 0, d')

    unfoldable pub mailbox_get_firmware_revision : D → Run (ℕ × D)
    mailbox_get_firmware_revision d = get_word get_firmware_revision d

    unfoldable pub mailbox_get_board_model : D → Run (ℕ × D)
    mailbox_get_board_model d = get_word get_board_model d

    unfoldable pub mailbox_get_board_revision : D → Run (ℕ × D)
    mailbox_get_board_revision d = get_word get_board_revision d

    -- The six bytes, the first one lowest in its word.
    unfoldable pub mailbox_get_board_macaddr : D → Run (List ℕ × D)
    mailbox_get_board_macaddr d = do
      (res, d') ← request 0 (empty_tag get_board_mac_address 6) 0 6 d
      let w0 = word res 0
      let w1 = word res 1
      done (
        w0 % 2 ^ 8
            ∷ w0 / 2 ^ 8 % 2 ^ 8
            ∷ w0 / 2 ^ 16 % 2 ^ 8
            ∷ w0 / 2 ^ 24 % 2 ^ 8
            ∷ w1 % 2 ^ 8
            ∷ w1 / 2 ^ 8 % 2 ^ 8
            ∷ [],
        d',
      )

    unfoldable pub mailbox_get_board_serial : D → Run (ℕ × D)
    mailbox_get_board_serial d = do
      (res, d') ← request 0 (empty_tag get_board_serial 8) 0 8 d
      done (bit_or (word res 0 * 2 ^ 32) (word res 1), d')
