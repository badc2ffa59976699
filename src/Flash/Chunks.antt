-- ===== src/Flash/Chunks.antt =====
-- src/main.c: what a chunk depends on: not on the marks of the pump, and not on the payload behind it.
use open_gbflash_firmware.Common.{
  ℕ, zero, suc, ◌+◌, ◌-◌, ◌*◌, ◌/◌, ◌^◌, ◌≤◌, ◌<◌, if◌then◌else◌, u8, u32, sub32, arith, ◌≡◌, refl,
  ◌∙◌, ap, ap₂, fun_ext, Array, from, List, [], ◌∷◌, Option, some, Bool, ◌>>=◌, ◌&&◌, not,
}
use open_gbflash_firmware.Proto.State.{FwState}
use open_gbflash_firmware.Usb.Queue.{to_list, to_list-cong}
use open_gbflash_firmware.Glue.Link.{expired}
use open_gbflash_firmware.Flash.Bus.{Access, Poll, Cart, ◌▹◌}
use open_gbflash_firmware.Flash.Wait.{
  Verdict, passed, is_amd, is_sharp, is_done, ask, gave_up, agb_wait, dmg_wait, dmg_poll,
  deadline_of, agb_status_wait, dmg_status_wait,
}
use open_gbflash_firmware.Flash.Agb.{agb_load, read_array, agb_program_chunk, then_wait}
use open_gbflash_firmware.Flash.Dmg.{flash, flash_bytes, dmg_amd_load, dmg_program_chunk, burst_ok}
mod Waits
pub use Waits.*

flash_bytes-marked :
    (k : ℕ) (st : FwState) (d s a : ℕ) (data_bytes : Array) (c : Cart)
    → flash_bytes k (marked st d s) a data_bytes c ≡ flash_bytes k st a data_bytes c
unfolding flash_bytes
flash_bytes-marked zero st d s a data_bytes c = refl
flash_bytes-marked (suc k) st d s a data_bytes c =
    flash_bytes-marked k st d s (u32 (a + 1)) (from data_bytes 1) (flash st a (data_bytes 0) c)

flash_bytes-Agree :
    (k : ℕ) (st : FwState) (a : ℕ) (p q : Array) (c : Cart)
    → Agree k p q
    → flash_bytes k st a p c ≡ flash_bytes k st a q c
unfolding flash_bytes
flash_bytes-Agree zero st a p q c h = refl
flash_bytes-Agree (suc k) st a p q c h =
    ap (λ x. flash_bytes k st (u32 (a + 1)) (from p 1) (flash st a x c)) (h 0 (omega arith))
    ∙ flash_bytes-Agree k st (u32 (a + 1)) (from p 1) (from q 1) (flash st a (q 0) c)
        (λ i lt. h (1 + i) (omega arith))

pub agb_program_chunk-marked :
    (st : FwState) (d s : ℕ) (data_bytes : Array) (at have : ℕ) (c : Cart)
    → agb_program_chunk (marked st d s) data_bytes at have c
      ≡ agb_program_chunk st data_bytes at have c
unfolding agb_program_chunk
agb_program_chunk-marked st d s data_bytes at have c =
    let sa = u32 (st.address + at / 2) in
    let lastoff = at + (have - 1) * 2 in
    let confirm = if is_amd st then st.flash_cmd_val 5 else st.flash_cmd_val 3 in
    ap (λ m. m >>= λ v. some (read_array st sa v))
      (agb_status_wait-marked st d s (u32 (sa + (have - 1)))
        (data_bytes lastoff + data_bytes (lastoff + 1) * 2 ^ 8)
        (agb_load st sa have c
          ▹ Access.agb_burst sa (to_list (have * 2) (from data_bytes at))
          ▹ Access.agb_write sa confirm))

pub agb_program_chunk-Agree :
    (st : FwState) (p q : Array) (filled at have : ℕ) (c : Cart)
    → 1 ≤ have
    → Agree filled p q
    → at + have * 2 ≤ filled
    → agb_program_chunk st p at have c ≡ agb_program_chunk st q at have c
unfolding agb_program_chunk
agb_program_chunk-Agree st p q filled at have c w h le =
    let sa = u32 (st.address + at / 2) in
    let lastoff = at + (have - 1) * 2 in
    let confirm = if is_amd st then st.flash_cmd_val 5 else st.flash_cmd_val 3 in
    ap₂
      (λ (burst : List ℕ) (want : ℕ).
        agb_status_wait st (u32 (sa + (have - 1))) want
          (agb_load st sa have c ▹ Access.agb_burst sa burst ▹ Access.agb_write sa confirm)
        >>= λ v. some (read_array st sa v))
      (to_list-cong (have * 2) (from p at) (from q at) (λ i lt. h (at + i) (omega arith)))
      (ap₂ (λ x y. x + y * 2 ^ 8) (h lastoff (omega arith)) (h (lastoff + 1) (omega arith)))

dmg_amd_load-marked :
    (w : Bool) (st : FwState) (d s sa : ℕ) (p : Array) (have : ℕ) (c : Cart)
    → dmg_amd_load w (marked st d s) sa p have c ≡ dmg_amd_load w st sa p have c
unfolding dmg_amd_load
dmg_amd_load-marked w st d s sa p have c =
    ap
      (λ m.
        if burst_ok w st
        then c ▹ Access.amd_buffer sa (to_list have p)
        else flash st sa (u8 (st.flash_cmd_val 5)) m)
      (flash_bytes-marked have st d s sa p _)

dmg_amd_load-Agree :
    (w : Bool) (st : FwState) (sa : ℕ) (p q : Array) (have : ℕ) (c : Cart)
    → Agree have p q
    → dmg_amd_load w st sa p have c ≡ dmg_amd_load w st sa q have c
unfolding dmg_amd_load
dmg_amd_load-Agree w st sa p q have c h =
    ap₂
      (λ l m.
        if burst_ok w st
        then c ▹ Access.amd_buffer sa l
        else flash st sa (u8 (st.flash_cmd_val 5)) m)
      (to_list-cong have p q h) (flash_bytes-Agree have st sa p q _ h)

then_wait-cong :
    {m n : Option Verdict} (k l : Cart → Option Verdict)
    → m ≡ n
    → ((c : Cart) → k c ≡ l c)
    → then_wait m k ≡ then_wait n l
then_wait-cong {m} k l e h = ap (λ x. then_wait x k) e ∙ ap (then_wait _) (fun_ext h)

-- The wait before the length of a buffer that is not AMD's.
abbrev ready : FwState → ℕ → Cart → Option Verdict
ready st sa head =
    if is_sharp st then passed (head ▹ Access.delay_nops 320) else dmg_status_wait st sa 0 head

abbrev load_rest : FwState → ℕ → Array → ℕ → Cart → Option Verdict
load_rest st sa p have d = dmg_status_wait st sa 0 (
    flash st sa (u8 (st.flash_cmd_val 3))
      (flash_bytes have st sa p (flash st sa (u8 (sub32 have 1)) d)))

abbrev close : FwState → ℕ → Cart → Option Verdict
close st sa d = passed (flash st sa (u8 (st.flash_cmd_val 4)) d)

pub dmg_program_chunk-marked :
    (w : Bool) (st : FwState) (d s : ℕ) (data_bytes : Array) (off have : ℕ) (c : Cart)
    → dmg_program_chunk w (marked st d s) data_bytes off have c
      ≡ dmg_program_chunk w st data_bytes off have c
unfolding dmg_program_chunk
dmg_program_chunk-marked w st d s data_bytes off have c =
    let sa = u32 (st.address + off) in
    let p = from data_bytes off in
    let head = flash st sa (u8 (st.flash_cmd_val 0)) c in
    ap₂ (λ m n. if is_amd st then m else n)
      (dmg_status_wait-marked st d s (u32 (sa + have - 1)) (p (have - 1))
          (dmg_amd_load w (marked st d s) sa p have c)
        ∙ ap (dmg_status_wait st (u32 (sa + have - 1)) (p (have - 1)))
            (dmg_amd_load-marked w st d s sa p have c))
      (then_wait-cong (close st sa) (close st sa)
        (then_wait-cong (load_rest (marked st d s) sa p have) (load_rest st sa p have)
          (ap (λ m. if is_sharp st then passed (head ▹ Access.delay_nops 320) else m)
            (dmg_status_wait-marked st d s sa 0 head))
          (λ e.
            dmg_status_wait-marked st d s sa 0 (
              flash st sa (u8 (st.flash_cmd_val 3))
                (flash_bytes have (marked st d s) sa p (flash st sa (u8 (sub32 have 1)) e)))
            ∙ ap (λ x. dmg_status_wait st sa 0 (flash st sa (u8 (st.flash_cmd_val 3)) x))
                (flash_bytes-marked have st d s sa p _)))
        (λ e. refl))

pub dmg_program_chunk-Agree :
    (w : Bool) (st : FwState) (a b : Array) (filled off have : ℕ) (c : Cart)
    → 1 ≤ have
    → Agree filled a b
    → off + have * 1 ≤ filled
    → dmg_program_chunk w st a off have c ≡ dmg_program_chunk w st b off have c
unfolding dmg_program_chunk
dmg_program_chunk-Agree w st a b filled off have c pos h le =
    let sa = u32 (st.address + off) in
    let p = from a off in
    let q = from b off in
    let here : Agree have p q = λ i lt. h (off + i) (omega arith) in
    let head = flash st sa (u8 (st.flash_cmd_val 0)) c in
    ap₂ (λ m n. if is_amd st then m else n)
      (ap₂ (dmg_status_wait st (u32 (sa + have - 1))) (here (have - 1) (omega arith))
        (dmg_amd_load-Agree w st sa p q have c here))
      (then_wait-cong (close st sa) (close st sa)
        (then_wait-cong (load_rest st sa p have) (load_rest st sa q have) refl (λ e.
          ap (λ x. dmg_status_wait st sa 0 (flash st sa (u8 (st.flash_cmd_val 3)) x))
            (flash_bytes-Agree have st sa p q _ here)))
        (λ e. refl))
