-- ===== src/Cpu/Messages.antt =====
-- How cpu/src/cpu.c sends to the kernel what a process ended with.
use geck.Prelude.{ℕ, List, true}
use geck.Shared.{seg_fault, page_fault, end_process, execute_interruption}
use geck.Shared.Wire.{
  create_package, add_int_to_package, add_pcb_to_package, send_package, send_pcb_package,
  send_pcb_io_package,
}
use geck.Cpu.Cycle.{CpuMessage}

-- The ends of `execute_process`, on the socket of the kernel.
unfoldable pub send_message : CpuMessage → List ℕ → List ℕ
send_message (CpuMessage.end_process pcb) socket_kernel =
    send_pcb_package socket_kernel pcb end_process
send_message (CpuMessage.input_output pcb device parameter) socket_kernel =
    send_pcb_io_package socket_kernel pcb device parameter true
send_message (CpuMessage.page_fault pcb segment page) socket_kernel =
    send_package
      (add_int_to_package
        (add_int_to_package (add_pcb_to_package (create_package page_fault) pcb) segment) page)
      socket_kernel
send_message (CpuMessage.seg_fault pcb) socket_kernel = send_pcb_package socket_kernel pcb seg_fault
send_message (CpuMessage.execute_interruption pcb) socket_kernel =
    send_pcb_package socket_kernel pcb execute_interruption
send_message CpuMessage.nothing socket_kernel = socket_kernel
