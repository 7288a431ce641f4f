-- ===== src/Tests/Starts.antt =====
-- kernel/mm/paging.c, `init_paging`, with the kernel's image up to 0x110010 and a memory that is not
-- empty.
use pyramid_kernel.Prelude.{◌+◌, ◌%◌, ◌≡◌, refl, arith, [], none}
use pyramid_kernel.Memory.{Memory, IsBytes}
use pyramid_kernel.Kernel.{Heap, Kernel, ok, ◌>>◌}
use pyramid_kernel.Descriptors.{init_idt}
use pyramid_kernel.Kheap.{header_t_less_than}
use pyramid_kernel.Kheap.Setup.{
  set_up_frame_allocations, set_up_page_directory, map_heap_pages, identity_map,
}
use pyramid_kernel.Kheap.IdentityMap.{MapsItself, identity_map-MapsItself}
use pyramid_kernel.Boot.{Machine, running, init_paging}
use pyramid_kernel.Boot.Start.{Started, init_paging-Started}

abbrev image : Memory
image a = a % 256

image-IsBytes : IsBytes image
image-IsBytes a = omega arith

abbrev no_heap : Heap
no_heap = record {
  index = record { array = 0; size = 0; max_size = 0; less_than = header_t_less_than };
  start_address = 0;
  end_address = 0;
  max_address = 0;
  supervisor = 0;
  readonly = 0;
}

abbrev loaded_kernel : Kernel
loaded_kernel = record {
  mem = image;
  placement_address = 0x11_0010;
  kheap = 0;
  heap = no_heap;
  kernel_directory = 0;
  current_directory = 0;
  frame_allocations = 0;
  num_of_frames = 0;
}

abbrev loaded_machine : Machine
loaded_machine = record {
  kernel = loaded_kernel;
  console = record { mem = image; fb_col = 0; fb_row = 3; sent = [] };
  gdt = [];
  idt = init_idt (λ vector. 0x10_0000 + vector);
  handlers = λ _. none;
  cr0 = 0x11;
  cr3 = 0;
}

init_paging-Started_example :
    (m' : Machine) × (init_paging 1 1024 loaded_machine ≡ running m') × Started loaded_machine m'
init_paging-Started_example =
    init_paging-Started 0 1024 loaded_machine refl (omega arith) (omega arith) (omega arith)
      image-IsBytes

identity_map-MapsItself_example :
    (k' : Kernel) × ((set_up_frame_allocations 1
          >> (set_up_page_directory 1 >> (map_heap_pages 1 >> identity_map 1 1024)))
        loaded_kernel
      ≡ ok tt k')
    × MapsItself 1 k'
identity_map-MapsItself_example =
    identity_map-MapsItself 0 1024 loaded_kernel refl (omega arith) (omega arith) (omega arith)
      image-IsBytes
