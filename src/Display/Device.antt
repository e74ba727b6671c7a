-- ===== src/Display/Device.antt =====
-- src/display.c: what the display does to the processor's state.
use riscv_simulator.Prelude.{
  ℕ, ◌≡◌, refl, ◌∙◌, ◌^◌, ◌<◌, ◌%◌, Bool, true, false, ◌==◌, if◌then◌else◌, [], ◌∷◌, arith,
  bit_or-lt,
}
use riscv_simulator.State.{Cpu, Uart}
use riscv_simulator.State.Valid.{CpuIsValid, UartIsValid, uart-IsValid}
use riscv_simulator.Uart.Valid.{if-UartIsValid}
use riscv_simulator.Uart.{lsr_thre}
use riscv_simulator.Display.Screen.{has_byte, transmit, display_screen}
use riscv_simulator.Display.{
  Display, View, Frame, show_registers, show_mode, show_stack, show_source, show_screen, show_uart,
  show_clint, show_plic, in_order, count_round, first_frame, fast_frame, step_frame, update_display,
}

-- The processor with the byte taken from its UART.
unfoldable pub sent : Cpu → Cpu
sent cpu = record cpu { uart = transmit cpu.uart }

step_frame-cpu : (d : Display) (v : View) → (step_frame d v).1.cpu ≡ sent v.cpu
unfolding step_frame in_order show_registers show_mode show_stack show_source show_screen show_uart
    show_clint show_plic display_screen sent
step_frame-cpu d v = refl

pub first_frame-cpu : (d : Display) (v : View) → (first_frame d v).1.cpu ≡ sent v.cpu
unfolding first_frame in_order show_registers show_mode show_stack show_source show_screen show_uart
    show_clint show_plic display_screen sent
first_frame-cpu d v = refl

devices-cpu :
    (b : Bool) (d : Display) (v : View)
    → (in_order (if b then show_uart ∷ show_clint ∷ show_plic ∷ [] else []) d v).1.cpu ≡ v.cpu
unfolding in_order show_uart show_clint show_plic
devices-cpu true d v = refl
devices-cpu false d v = refl

panels-cpu :
    (b : Bool) (d : Display) (v : View)
    → (in_order
        (if b then show_registers ∷ show_mode ∷ show_stack ∷ show_source ∷ [] else [])
        d
        v).1.cpu
      ≡ v.cpu
unfolding in_order show_registers show_mode show_stack show_source
panels-cpu true d v = refl
panels-cpu false d v = refl

fast_frame-cpu : (d : Display) (v : View) → (fast_frame d v).1.cpu ≡ sent v.cpu
unfolding fast_frame in_order show_screen count_round display_screen sent
fast_frame-cpu d v = panels-cpu (d.i % 5000 == 0) _ _ ∙ devices-cpu (d.i % 500 == 0) _ _

-- A round of `update_display` changes nothing of the processor but its UART, and there only takes the
-- byte that waits in the transmit register, if one does.
pub update_display-cpu : (d : Display) (v : View) → (update_display d v).1.cpu ≡ sent v.cpu
unfolding update_display
update_display-cpu d v = if-cpu v.cpu.fast_mode _ _ (fast_frame-cpu d v) (step_frame-cpu d v)
  where
    if-cpu :
        (b : Bool) (x y : Display × View × Frame)
        → x.1.cpu ≡ sent v.cpu
        → y.1.cpu ≡ sent v.cpu
        → (if b then x else y).1.cpu ≡ sent v.cpu
    if-cpu true x y p q = p
    if-cpu false x y p q = q

transmit-IsValid : {uart : Uart} → UartIsValid uart → UartIsValid (transmit uart)
unfolding transmit
transmit-IsValid {uart} ok =
    if-UartIsValid (has_byte uart)
      (emptied ok (bit_or-lt 8 uart.lsr lsr_thre ok.lsr_lt (omega arith)) (omega arith)) ok
  where
    emptied :
        {u : Uart} {lsr thr : ℕ}
        → UartIsValid u
        → lsr < 2 ^ 8
        → thr < 2 ^ 8
        → UartIsValid (record u { lsr = lsr; thr = thr })
    emptied valid h g = assumption

pub update_display-IsValid :
    (d : Display) (v : View) → CpuIsValid v.cpu → CpuIsValid (update_display d v).1.cpu
unfolding sent
update_display-IsValid d v ok =
    rw (update_display-cpu d v) (uart-IsValid ok (transmit-IsValid ok.uart_valid))
